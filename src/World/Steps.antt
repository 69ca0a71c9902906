-- ===== src/World/Steps.antt =====
-- Sequences of steps over the shared state: a sequence follows its first step.
use tcpserver_cpp_libuv_samp.Base.{
  ◌==◌, List, [], ◌∷◌, ◌++◌, Bytes, if◌then◌else◌, ◌≡◌, refl, ap, ==_iff, ℕ,
}
use tcpserver_cpp_libuv_samp.Base.Outcome.{Outcome, ok, fault, Fault}
use tcpserver_cpp_libuv_samp.World.{Call, uv_write, Client, World, M, set_at, ◌>>=◌}

-- What a trace has written to a handle.
abbrev pub writes_to : ℕ → List Call → Bytes
writes_to h [] = []
writes_to h (uv_write j b ∷ t) =
    let earlier = writes_to h t in if j == h then earlier ++ b else earlier
writes_to h (other ∷ t) = writes_to h t

pub bind_step :
    {A B : Type 0} (m : M A) (f : A → M B) (w : World) {a : A} {v : World}
    → m w ≡ ok (a, v)
    → (m >>= f) w ≡ f a v
bind_step {A} {B} m f w e =
    ap
      (λ (r : Outcome (A × World)). elim r as (λ x. Outcome (B × World)) [
        | ok (a, v) ↦ f a v
        | fault x ↦ fault x
      ])
      e

pub bind_fault :
    {A B : Type 0} (m : M A) (f : A → M B) (w : World) {x : Fault}
    → m w ≡ fault x
    → (m >>= f) w ≡ fault x
bind_fault {A} {B} m f w e =
    ap
      (λ (r : Outcome (A × World)). elim r as (λ x. Outcome (B × World)) [
        | ok (a, v) ↦ f a v
        | fault x ↦ fault x
      ])
      e

pub set_at_self : (f : ℕ → Client) (i : ℕ) (c : Client) → set_at f i c i ≡ c
set_at_self f i c = rw ((==_iff i i).1 refl)

-- Two continuations that agree where the first step ends.
pub bind-cong :
    {A B : Type 0} (m : M A) (f g : A → M B) (w : World)
    → ((a : A) (v : World) → m w ≡ ok (a, v) → f a v ≡ g a v)
    → (m >>= f) w ≡ (m >>= g) w
bind-cong {A} {B} m f g w h = go (m w) refl
  where
    go :
        (r : Outcome (A × World))
        → m w ≡ r
        → (elim r as (λ x. Outcome (B × World)) [ ok (a, v) ↦ f a v | fault e ↦ fault e ])
          ≡ (elim r as (λ x. Outcome (B × World)) [ ok (a, v) ↦ g a v | fault e ↦ fault e ])
    go (ok (a, v)) e = h a v e
    go (fault x) e = refl

-- The parts of a run that ends without a fault.
pub bind-ok :
    {A B : Type 0} (m : M A) (f : A → M B) (w : World) (b : B) (u : World)
    → (m >>= f) w ≡ ok (b, u)
    → (a : A) × (v : World) × (m w ≡ ok (a, v)) × (f a v ≡ ok (b, u))
bind-ok {A} {B} m f w b u h = go (m w) refl h
  where
    go :
        (r : Outcome (A × World))
        → m w ≡ r
        → (elim r as (λ x. Outcome (B × World)) [ ok (a, v) ↦ f a v | fault e ↦ fault e ])
          ≡ ok (b, u)
        → (a : A) × (v : World) × (m w ≡ ok (a, v)) × (f a v ≡ ok (b, u))
    go (ok (a, v)) e h' = (a, v, e, h')
    go (fault x) e h' = cc
