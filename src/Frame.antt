-- ===== src/Frame.antt =====
-- Steps that keep the identity of every connection (its class, its address, its target) and the
-- bytes that it has received and not yet taken, and the rules by which such steps are composed.
pub mod Ops
pub mod Handlers
pub mod Callbacks
use tcpserver_cpp_libuv_samp.Base.{
  ℕ, suc, ◌≤◌, ◌<◌, ◌≡◌, refl, ◌∙◌, ◌==◌, Bool, true, false, Bytes, arith, if◌then◌else◌,
  Bool-cases, inl, inr, List, ◌∷◌, Option, none, some,
}
use mathlib.Core.Path.{subst}
use tcpserver_cpp_libuv_samp.Base.Outcome.{Outcome, ok, fault, Fault}
use tcpserver_cpp_libuv_samp.World.{
  Kind, State, App, Client, Call, Uv, World, M, ◌>>=◌, ◌>>◌, set_at, lift, put_client, set_state,
  set_stream, new_client, call, new_handle, put_app, get_client, get_table, get_app, read_fd,
  read_peername, deref, require, pure, fail,
}

pub record SameIdentity (c d : Client) : Type 0 where
  pub buffer : d.receive_buffer ≡ c.receive_buffer
  pub addr : d.peer_addr ≡ c.peer_addr
  pub kinds : d.kind ≡ c.kind
  pub hosts : d.host ≡ c.host
  pub ports : d.port ≡ c.port

-- From one world to a later one: connection objects are only added.
pub record Frame (w v : World) : Type 0 where
  pub grows : w.next_client ≤ v.next_client
  pub keeps : (j : ℕ) → j < w.next_client → SameIdentity (w.client j) (v.client j)

abbrev pub After : {A : Type 0} → (World → Type 0) → Outcome (A × World) → Type 0
After P (ok (a, w)) = P w
After P (fault e) = Unit

pub After-map :
    {A : Type 0} (P Q : World → Type 0) (r : Outcome (A × World))
    → ((v : World) → P v → Q v)
    → After P r
    → After Q r
After-map P Q (ok (a, v)) f p = f v p
After-map P Q (fault e) f p = tt

-- Every run that ends without a fault is such a step.
pub record Framed {A : Type 0} (m : M A) : Type 0 where
  pub at : (w : World) → After (Frame w) (m w)

SameIdentity-refl : (c : Client) → SameIdentity c c
SameIdentity-refl c = record {
  buffer = refl;
  addr = refl;
  kinds = refl;
  hosts = refl;
  ports = refl;
}

SameIdentity-trans : {c d e : Client} → SameIdentity c d → SameIdentity d e → SameIdentity c e
SameIdentity-trans p q = record {
  buffer = q.buffer ∙ p.buffer;
  addr = q.addr ∙ p.addr;
  kinds = q.kinds ∙ p.kinds;
  hosts = q.hosts ∙ p.hosts;
  ports = q.ports ∙ p.ports;
}

pub Frame-refl : (w : World) → Frame w w
Frame-refl w = record { grows = omega arith; keeps = λ j _. SameIdentity-refl (w.client j) }

pub Frame-trans : {w v u : World} → Frame w v → Frame v u → Frame w u
Frame-trans {w} {v} {u} f g = record {
  grows = omega (arith, f.grows, g.grows);
  keeps = λ j h. SameIdentity-trans (f.keeps j h) (g.keeps j (omega (arith, f.grows)));
}

pub bind-at :
    {A B : Type 0} (m : M A) (f : A → M B) (w : World)
    → After (Frame w) (m w)
    → ((a : A) → Framed (f a))
    → After (Frame w) ((m >>= f) w)
bind-at {A} {B} m f w hm hf = go (m w) hm
  where
    go :
        (r : Outcome (A × World))
        → After (Frame w) r
        → After
            (Frame w)
            (elim r as (λ x. Outcome (B × World)) [ ok (a, v) ↦ f a v | fault e ↦ fault e ])
    go (ok (a, v)) h = next (f a v) ((hf a).at v)
      where
        next : (r : Outcome (B × World)) → After (Frame v) r → After (Frame w) r
        next (ok (b, u)) k = Frame-trans h k
        next (fault e) k = tt
    go (fault e) h = tt

pub bind-Framed :
    {A B : Type 0} (m : M A) (f : A → M B) → Framed m → ((a : A) → Framed (f a)) → Framed (m >>= f)
bind-Framed m f hm hf = record { at = λ w. bind-at m f w (hm.at w) hf }

pub then-Framed : {B : Type 0} (m : M (Unit {0})) (k : M B) → Framed m → Framed k → Framed (m >> k)
then-Framed m k hm hk = bind-Framed m (λ _. k) hm (λ _. hk)

pub if-Framed :
    {A : Type 0} (b : Bool) (m k : M A) → Framed m → Framed k → Framed (if b then m else k)
if-Framed true m k hm hk = hm
if-Framed false m k hm hk = hk

pub pure-Framed : {A : Type 0} (a : A) → Framed (pure a)
pure-Framed a = record { at = λ w. Frame-refl w }

pub fail-Framed : {A : Type 0} (e : Fault) → Framed (fail {A = A} e)
fail-Framed e = record { at = λ w. tt }

pub require-Framed : (b : Bool) → Framed (require b)
require-Framed true = record { at = λ w. Frame-refl w }
require-Framed false = record { at = λ w. tt }

pub lift-Framed : {A : Type 0} (r : Outcome A) → Framed (lift r)
lift-Framed (ok a) = record { at = λ w. Frame-refl w }
lift-Framed (fault e) = record { at = λ w. tt }

pub deref-Framed : (o : Option ℕ) → Framed (deref o)
deref-Framed none = record { at = λ w. tt }
deref-Framed (some h) = record { at = λ w. Frame-refl w }

pub get_client-Framed : (i : ℕ) → Framed (get_client i)
get_client-Framed i = record { at = λ w. Frame-refl w }

pub get_app-Framed : Framed get_app
get_app-Framed = record { at = λ w. Frame-refl w }

-- The table and its size are the same.
pub table-Frame :
    (w : World) (handles : ℕ) (app : App) (trace : List Call)
    → Frame w (record w { next_handle = handles; app = app; trace = trace })
table-Frame w handles app trace = record {
  grows = omega arith;
  keeps = λ j _. SameIdentity-refl (w.client j);
}

pub put_app-Framed : (a : App) → Framed (put_app a)
put_app-Framed a = record { at = λ w. table-Frame w w.next_handle a w.trace }

pub call-Framed : (uv : Uv) (c : Call) → Framed (call uv c)
call-Framed uv c = record { at = λ w. table-Frame w w.next_handle w.app (c ∷ w.trace) }

pub new_handle-Framed : Framed new_handle
new_handle-Framed = record { at = λ w. table-Frame w (suc w.next_handle) w.app w.trace }

-- A write of one connection object that keeps its identity.
pub put_client-at :
    (i : ℕ) (d : Client) (w : World)
    → SameIdentity (w.client i) d
    → After (Frame w) (put_client i d w)
put_client-at i d w s = record { grows = omega arith; keeps = keeps }
  where
    keeps : (j : ℕ) → j < w.next_client → SameIdentity (w.client j) (set_at w.client i d j)
    keeps j _ = elim (Bool-cases (i == j)) [
      | inl e ↦
          let same : i ≡ j = ground arith in rw e (subst (λ k. SameIdentity (w.client k) d) same s)
      | inr e ↦ rw e (SameIdentity-refl (w.client j))
    ]

pub set_state-Framed : (i : ℕ) (s : State) → Framed (set_state i s)
set_state-Framed i s = record {
  at = λ w.
      put_client-at i (record (w.client i) { state = s }) w
        (record { buffer = refl; addr = refl; kinds = refl; hosts = refl; ports = refl });
}

pub set_stream-Framed : (i : ℕ) (h : Option ℕ) → Framed (set_stream i h)
set_stream-Framed i h = record {
  at = λ w.
      put_client-at i (record (w.client i) { stream = h }) w
        (record { buffer = refl; addr = refl; kinds = refl; hosts = refl; ports = refl });
}

pub new_client-Framed : (c : Client) → Framed (new_client c)
new_client-Framed c = record { at = λ w. record { grows = omega arith; keeps = keeps w } }
  where
    keeps :
        (w : World) (j : ℕ)
        → j < w.next_client
        → SameIdentity (w.client j) (set_at w.client w.next_client c j)
    keeps w j h =
        let other : (w.next_client == j) ≡ false = ground arith in
        rw other (SameIdentity-refl (w.client j))

pub get_table-Framed : Framed get_table
get_table-Framed = record { at = λ w. Frame-refl w }

pub read_fd-Framed : (uv : Uv) (handle : ℕ) → Framed (read_fd uv handle)
read_fd-Framed uv handle = record { at = λ w. Frame-refl w }

pub read_peername-Framed : (uv : Uv) (handle : ℕ) → Framed (read_peername uv handle)
read_peername-Framed uv handle = record { at = λ w. Frame-refl w }

pub After-trans :
    {A : Type 0} {w v : World} (r : Outcome (A × World))
    → Frame w v
    → After (Frame v) r
    → After (Frame w) r
After-trans (ok (a, u)) f h = Frame-trans f h
After-trans (fault e) f h = tt

-- A read of a connection object, a write of it that keeps its identity, and the rest.
pub update-Framed :
    {B : Type 0} (i : ℕ) (f : Client → Client) (k : Client → M B)
    → ((c : Client) → SameIdentity c (f c))
    → ((c : Client) → Framed (k c))
    → Framed (get_client i >>= λ c. put_client i (f c) >> k c)
update-Framed i f k same rest = record {
  at = λ w.
      let c = w.client i in
      bind-at (put_client i (f c)) (λ _. k c) w (put_client-at i (f c) w (same c)) (λ _. rest c);
}

pub Framed-ok :
    {A : Type 0} (m : M A)
    → Framed m
    → (w : World) (a : A) (v : World) → m w ≡ ok (a, v)
    → Frame w v
Framed-ok m h w a v e = subst (After (Frame w)) e (h.at w)

pub ruleset framed = (
  bind-Framed, then-Framed, if-Framed, pure-Framed, fail-Framed, require-Framed, lift-Framed,
  deref-Framed, get_client-Framed, get_table-Framed, get_app-Framed, read_fd-Framed,
  read_peername-Framed, put_app-Framed, call-Framed, new_handle-Framed, new_client-Framed,
  set_state-Framed, set_stream-Framed,
)
