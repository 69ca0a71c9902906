-- ===== src/Listen/Ports.antt =====
-- The ports that `doListen` counts, and predicates of what a step returns.
use tcpserver_cpp_libuv_samp.Base.{ℕ, suc, ◌≤◌, ◌≡◌, arith}
use tcpserver_cpp_libuv_samp.Base.Int.{ℤ, pos, negsuc, ◌+ℤ◌}
use tcpserver_cpp_libuv_samp.Base.Outcome.{Outcome, ok, fault}
use tcpserver_cpp_libuv_samp.World.{World, M, ◌>>=◌}
use tcpserver_cpp_libuv_samp.Frame.{After}
use tcpserver_cpp_libuv_samp.Listen.{next_ports}

pub next_ports_bounds : (n : ℤ) → (1 ≤ next_ports n) × (next_ports n ≤ 10)
unfolding next_ports
next_ports_bounds (pos n) = omega arith
next_ports_bounds (negsuc n) = omega arith

-- A run that returns a value and ends in a world.
abbrev pub Returns : {A : Type 0} → (A → World → Type 0) → Outcome (A × World) → Type 0
Returns P (ok (a, v)) = P a v
Returns P (fault e) = Unit

pub Returns-bind :
    {A B : Type 0} (P : A → World → Type 0) (Q : B → World → Type 0) (m : M A) (f : A → M B)
    (w : World)
    → Returns P (m w)
    → ((a : A) (v : World) → P a v → Returns Q (f a v))
    → Returns Q ((m >>= f) w)
Returns-bind {A} {B} P Q m f w hm hf = go (m w) hm
  where
    go :
        (r : Outcome (A × World))
        → Returns P r
        → Returns Q (elim r as (λ x. Outcome (B × World)) [ ok (a, v) ↦ f a v | fault e ↦ fault e ])
    go (ok (a, v)) h = hf a v h
    go (fault e) h = tt

pub Returns-map :
    {A : Type 0} (P Q : A → World → Type 0) (r : Outcome (A × World))
    → ((a : A) (v : World) → P a v → Q a v)
    → Returns P r
    → Returns Q r
Returns-map P Q (ok (a, v)) f p = f a v p
Returns-map P Q (fault e) f p = tt

pub After-Returns :
    {A : Type 0} (R : World → Type 0) (r : Outcome (A × World)) → After R r → Returns (λ a v. R v) r
After-Returns R (ok (a, v)) h = h
After-Returns R (fault e) h = tt

pub next_port : (port : ℤ) (k : ℕ) → (port +ℤ pos 1) +ℤ pos k ≡ port +ℤ pos (suc k)
next_port port k = ground arith

pub same_port : (port : ℤ) → port ≡ port +ℤ pos 0
same_port port = ground arith
