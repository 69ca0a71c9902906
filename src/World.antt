-- ===== src/World.antt =====
-- The state that the callbacks of lib/ and node/ share, and the calls that they make into libuv.
-- libuv is a parameter: a function from the calls made so far to the result of the next call.
pub mod Steps
use tcpserver_cpp_libuv_samp.Base.{
  ◌≡◌, refl, ap, ==_iff, ℕ, suc, ◌==◌, Bool, true, false, List, ◌∷◌, Option, none, some, Bytes,
  if◌then◌else◌,
}
use tcpserver_cpp_libuv_samp.Base.Int.{ℤ}
use tcpserver_cpp_libuv_samp.Base.Outcome.{Outcome, ok, fault, Fault}
use tcpserver_cpp_libuv_samp.Dict.{Dict}

-- `NetClientBase::State`.
pub data State : Type 0 where
  undefined not_connected connecting connected accepted sending sent receiving received closing
        closed :
      State

-- The classes `NetClientIn`, `NetClientOut` and `PeerClientOut`.
pub data Kind : Type 0 where
  client_in client_out peer_client_out : Kind

-- A connection object. `stream` is `myUvStream`, `none` for a null pointer. The fields behind it
-- are those of the derived classes; `peer_send_counter` is the counter that `PeerClientOut`
-- declares again under the name of its base's.
pub record Client : Type 0 where
  pub kind : Kind
  pub state : State
  pub peer_addr : Bytes
  pub canon_peer_addr : Bytes
  pub receive_buffer : Bytes
  pub stream : Option ℕ
  pub host : Bytes
  pub port : ℤ
  pub ping_to_send : ℕ
  pub send_counter : ℕ
  pub peer_send_counter : ℕ
  pub timer : Option ℕ

-- `ServerApp`: `myClients` holds connection objects, named by their place in the table.
pub record Server : Type 0 where
  pub name : Bytes
  pub clients : Dict ℕ

-- `NodeApp::PeerCandidateInfo`.
pub record PeerCandidate : Type 0 where
  pub host : Bytes
  pub port : ℤ
  pub to_try : ℕ
  pub conn_try_count : ℕ
  pub connected_count : ℕ

-- `NodeApp::PeerInfo`.
pub record Peer : Type 0 where
  pub client : Option ℕ
  pub out_flag : Bool

-- `NodeApp`, which declares a name of its own beside its base's.
pub record Node : Type 0 where
  pub name : Bytes
  pub cands : Dict PeerCandidate
  pub peers : List Peer

pub data App : Type 0 where
  server_app : Server → App
  client_app : App
  node_app : Node → App

-- A call into libuv with its arguments. A handle is a number.
pub data Call : Type 0 where
  uv_tcp_init uv_close uv_is_closing uv_read_start uv_fileno : ℕ → Call
  uv_async_init uv_timer_init uv_timer_start uv_timer_stop uv_tcp_getpeername : ℕ → Call
  uv_write : ℕ → Bytes → Call
  uv_tcp_connect uv_tcp_bind : ℕ → Bytes → ℤ → Call
  uv_accept uv_listen : ℕ → ℕ → Call
  delete_handle : ℕ → Call

pub data Family : Type 0 where
  inet inet6 other : Family

-- What `uv_tcp_getpeername` and `uv_inet_ntop` report: `ip` is `none` where the latter fails;
-- `port_field` is `sin_port`, in network byte order, as the host reads the 16-bit field.
pub record SockAddr : Type 0 where
  pub family : Family
  pub ip : Option Bytes
  pub port_field : ℕ

pub record Uv : Type 0 where
  pub result : List Call → Call → ℤ
  pub fd : List Call → ℕ → ℤ
  pub peername : List Call → ℕ → SockAddr

-- The table of connection objects, the application, and the calls so far, newest first.
pub record World : Type 0 where
  pub client : ℕ → Client
  pub next_client : ℕ
  pub next_handle : ℕ
  pub app : App
  pub trace : List Call

abbrev pub M : Type 0 → Type 0
M A = World → Outcome (A × World)

abbrev pub pure : {A : Type 0} → A → M A
pure a w = ok (a, w)

infixl 5 ◌>>=◌ ◌>>◌
abbrev pub ◌>>=◌ : {A : Type 0} {B : Type 0} (step : M A) (next : A → M B) → M B
◌>>=◌ step next w = elim (step w) [ ok (a, w') ↦ next a w' | fault e ↦ fault e ]

abbrev pub ◌>>◌ : {B : Type 0} (step : M (Unit {0})) (next : M B) → M B
step >> next = step >>= λ _. next

abbrev pub fail : {A : Type 0} → Fault → M A
fail e w = fault e

abbrev pub require : Bool → M (Unit {0})
require true w = ok (tt, w)
require false w = fault Fault.assertion

abbrev pub lift : {A : Type 0} → Outcome A → M A
lift (ok a) w = ok (a, w)
lift (fault e) w = fault e

abbrev pub get_client : ℕ → M Client
get_client i w = ok (w.client i, w)

abbrev pub set_at : (ℕ → Client) → ℕ → Client → ℕ → Client
set_at f i c j = if i == j then c else f j

-- The table by which an entry's pointer is followed.
abbrev pub get_table : M (ℕ → Client)
get_table w = ok (w.client, w)

abbrev pub put_client : ℕ → Client → M (Unit {0})
put_client i c w = ok (tt, record w { client = set_at w.client i c })

abbrev pub set_state : ℕ → State → M (Unit {0})
set_state i s w =
    ok (tt, record w { client = set_at w.client i (record (w.client i) { state = s }) })

abbrev pub set_stream : ℕ → Option ℕ → M (Unit {0})
set_stream i h w =
    ok (tt, record w { client = set_at w.client i (record (w.client i) { stream = h }) })

abbrev pub clear_timer : ℕ → M (Unit {0})
clear_timer i w =
    ok (tt, record w { client = set_at w.client i (record (w.client i) { timer = none }) })

abbrev pub get_app : M App
get_app w = ok (w.app, w)

abbrev pub put_app : App → M (Unit {0})
put_app a w = ok (tt, record w { app = a })

-- `new` of a connection object and of a handle.
abbrev pub new_client : Client → M ℕ
new_client c w = ok (
  w.next_client,
  record w { client = set_at w.client w.next_client c; next_client = suc w.next_client },
)

abbrev pub new_handle : M ℕ
new_handle w = ok (w.next_handle, record w { next_handle = suc w.next_handle })

-- A call into libuv.
abbrev pub call : Uv → Call → M ℤ
call uv c w = ok (uv.result w.trace c, record w { trace = c ∷ w.trace })

-- What `uv_fileno` and `uv_tcp_getpeername` write through their pointers.
abbrev pub read_fd : Uv → ℕ → M ℤ
read_fd uv handle w = ok (uv.fd w.trace handle, w)

abbrev pub read_peername : Uv → ℕ → M SockAddr
read_peername uv handle w = ok (uv.peername w.trace handle, w)

-- A pointer that the code uses without a test.
abbrev pub deref : Option ℕ → M ℕ
deref none w = fault Fault.null_pointer
deref (some h) w = ok (h, w)
