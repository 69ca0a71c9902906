-- ===== src/Kept.antt =====
-- Steps that keep a predicate of the shared state, the rules by which such steps are composed, and
-- the laws under which every handler and callback of the program is such a step.
pub mod Handlers
pub mod Callbacks
pub mod Steady
pub mod Starts
pub mod Trials
pub mod Classes
pub mod Entries
pub mod Typed
pub mod Tables
pub mod Candidates
pub mod Order
pub mod Streams
pub mod Safe
pub mod Clean
pub mod Handles
pub mod Runs
use tcpserver_cpp_libuv_samp.Base.{
  ℕ, suc, Bool, true, false, ◌≡◌, refl, ◌∷◌, Option, none, some, Bytes, if◌then◌else◌,
}
use tcpserver_cpp_libuv_samp.Base.Int.{ℤ}
use tcpserver_cpp_libuv_samp.Base.Outcome.{Outcome, ok, fault, Fault}
use tcpserver_cpp_libuv_samp.Message.{Message}
use tcpserver_cpp_libuv_samp.World.{
  State, set_state, App, server_app, client_app, node_app, Client, Call, uv_timer_init,
  uv_timer_start, uv_tcp_getpeername, Uv, World, M, ◌>>=◌, ◌>>◌, lift, put_client, set_at, call,
  new_handle, get_client, get_table, get_app, read_fd, read_peername, deref, require, pure, fail,
}
use tcpserver_cpp_libuv_samp.Client.{close, send_message, do_read, is_connected, on_close}
use tcpserver_cpp_libuv_samp.Node.{get_node, try_out_connections, learn_candidate}
use tcpserver_cpp_libuv_samp.Events.{on_new_connection}
use tcpserver_cpp_libuv_samp.Frame.{After}

-- From a world with the predicate, every run without a fault ends in one.
pub record Kept (P : World → Type 0) {A : Type 0} (m : M A) : Type 0 where
  pub at : (w : World) → P w → After P (m w)

-- A run in two parts, with a predicate between them.
pub bind-After :
    {A B : Type 0} (Q R : World → Type 0) (m : M A) (f : A → M B) (w : World)
    → After Q (m w)
    → ((a : A) (v : World) → Q v → After R (f a v))
    → After R ((m >>= f) w)
bind-After {A} {B} Q R m f w hm hf = go (m w) hm
  where
    go :
        (r : Outcome (A × World))
        → After Q r
        → After R (elim r as (λ x. Outcome (B × World)) [ ok (a, v) ↦ f a v | fault e ↦ fault e ])
    go (ok (a, v)) h = hf a v h
    go (fault e) h = tt

get_node-of :
    (P : World → Type 0) (w : World) (a : App)
    → P (record w { app = a })
    → After P (get_node (record w { app = a }))
get_node-of P w (server_app s) p = tt
get_node-of P w client_app p = tt
get_node-of P w (node_app n) p = p

module _ {P : World → Type 0} where
  pub bind-Kept :
      {A B : Type 0} (m : M A) (f : A → M B)
      → Kept P m
      → ((a : A) → Kept P (f a))
      → Kept P (m >>= f)
  bind-Kept m f hm hf = record {
    at = λ w p. bind-After P P m f w (hm.at w p) (λ a v q. (hf a).at v q);
  }

  pub then-Kept : {B : Type 0} (m : M (Unit {0})) (k : M B) → Kept P m → Kept P k → Kept P (m >> k)
  then-Kept m k hm hk = bind-Kept m (λ _. k) hm (λ _. hk)

  pub if-Kept :
      {A : Type 0} (b : Bool) (m k : M A) → Kept P m → Kept P k → Kept P (if b then m else k)
  if-Kept true m k hm hk = hm
  if-Kept false m k hm hk = hk

  pub pure-Kept : {A : Type 0} (a : A) → Kept P (pure a)
  pure-Kept a = record { at = λ w p. p }

  pub fail-Kept : {A : Type 0} (e : Fault) → Kept P (fail {A = A} e)
  fail-Kept e = record { at = λ w p. tt }

  pub require-Kept : (b : Bool) → Kept P (require b)
  require-Kept true = record { at = λ w p. p }
  require-Kept false = record { at = λ w p. tt }

  pub lift-Kept : {A : Type 0} (r : Outcome A) → Kept P (lift r)
  lift-Kept (ok a) = record { at = λ w p. p }
  lift-Kept (fault e) = record { at = λ w p. tt }

  pub deref-Kept : (o : Option ℕ) → Kept P (deref o)
  deref-Kept none = record { at = λ w p. tt }
  deref-Kept (some h) = record { at = λ w p. p }

  pub get_client-Kept : (i : ℕ) → Kept P (get_client i)
  get_client-Kept i = record { at = λ w p. p }

  pub get_app-Kept : Kept P get_app
  get_app-Kept = record { at = λ w p. p }

  pub get_table-Kept : Kept P get_table
  get_table-Kept = record { at = λ w p. p }

  pub read_fd-Kept : (uv : Uv) (handle : ℕ) → Kept P (read_fd uv handle)
  read_fd-Kept uv handle = record { at = λ w p. p }

  pub read_peername-Kept : (uv : Uv) (handle : ℕ) → Kept P (read_peername uv handle)
  read_peername-Kept uv handle = record { at = λ w p. p }

  pub get_node-Kept : Kept P get_node
  get_node-Kept = record { at = λ w p. get_node-of P w w.app p }

pub ruleset kept = (
  bind-Kept, then-Kept, if-Kept, pure-Kept, fail-Kept, require-Kept, lift-Kept, deref-Kept,
  get_client-Kept, get_app-Kept, get_node-Kept, get_table-Kept, read_fd-Kept, read_peername-Kept,
)

-- The calls that concern no connection's stream and start none.
abbrev pub is_plain : Call → Bool
is_plain (uv_timer_init h) = true
is_plain (uv_timer_start h) = true
is_plain (uv_tcp_getpeername h) = true
is_plain other = false

-- A write of a connection object that leaves its stream and its class.
abbrev pub IsUpdate : (Client → Client) → Type 0
IsUpdate f = (c : Client) → ((f c).stream ≡ c.stream) × ((f c).kind ≡ c.kind)

-- What a predicate needs to be kept by every handler and callback: it does not depend on the fields
-- of a connection other than its stream and its class, on plain calls, or on unused handles, and each operation of
-- a connection, of the tables and of the listening side keeps it.
pub record Laws (uv : Uv) (P : World → Type 0) : Type 0 where
  pub updates :
      (i : ℕ) (f : Client → Client) (w : World)
      → IsUpdate f
      → P w
      → P (record w { client = set_at w.client i (f (w.client i)) })
  pub handles : (w : World) → P w → P (record w { next_handle = suc w.next_handle })
  pub calls :
      (c : Call) (w : World) → is_plain c ≡ true → P w → P (record w { trace = c ∷ w.trace })
  pub sends : (i : ℕ) (m : Message) → Kept P (send_message uv i m)
  pub reads : (i : ℕ) → Kept P (do_read uv i)
  pub closes : (i : ℕ) → Kept P (close uv i)
  pub ends : (i handle : ℕ) → Kept P (on_close uv i handle)
  pub checks : (i : ℕ) → Kept P (is_connected uv i)
  pub learns : (host : Bytes) (port : ℤ) → Kept P (learn_candidate uv host port)
  pub accepts : (server : ℕ) (status : ℤ) → Kept P (on_new_connection uv server status)

module _ {uv : Uv} {P : World → Type 0} (L : Laws uv P) where
  -- A read of a connection object, a write of it that keeps its stream and its class, and the rest.
  pub update-Kept :
      {B : Type 0} (i : ℕ) (f : Client → Client) (k : Client → M B)
      → IsUpdate f
      → ((c : Client) → Kept P (k c))
      → Kept P (get_client i >>= λ c. put_client i (f c) >> k c)
  update-Kept i f k same rest = record {
    at = λ w p.
        (rest (w.client i)).at (record w { client = set_at w.client i (f (w.client i)) })
          (L.updates i f w same p);
  }

  pub set_state-Kept : (i : ℕ) (s : State) → Kept P (set_state i s)
  set_state-Kept i s = record {
    at = λ w p. L.updates i (λ c. record c { state = s }) w (λ c. (refl, refl)) p;
  }

  pub new_handle-Kept : Kept P new_handle
  new_handle-Kept = record { at = L.handles }

  pub call-Kept : (c : Call) → is_plain c ≡ true → Kept P (call uv c)
  call-Kept c plain = record { at = λ w p. L.calls c w plain p }
