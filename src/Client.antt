-- ===== src/Client.antt =====
-- lib/net_client.cpp: a connection's own operations. The callbacks that reach the application's
-- message handlers are in `Events`.
pub mod Closing
use tcpserver_cpp_libuv_samp.Base.{
  ℕ, suc, ◌+◌, ◌==◌, Bool, true, false, ◌&&◌, ◌||◌, List, [], ◌∷◌, ◌++◌, Option, none, some, Bytes,
  codes, if◌then◌else◌, not,
}
use tcpserver_cpp_libuv_samp.Base.Int.{ℤ, pos, negsuc, is_zero, is_negative}
use tcpserver_cpp_libuv_samp.Base.Outcome.{Outcome, ok, fault, Fault}
use tcpserver_cpp_libuv_samp.Text.{to_string}
use tcpserver_cpp_libuv_samp.Message.{Message, serialize}
use tcpserver_cpp_libuv_samp.World.{
  State, undefined, not_connected, connecting, connected, accepted, sending, sent, receiving,
  received, closing, closed, Kind, client_in, client_out, peer_client_out, Client, Call,
  uv_tcp_init, uv_close, uv_is_closing, uv_read_start, uv_fileno, uv_write, uv_tcp_connect,
  delete_handle, Uv, World, M, pure, ◌>>=◌, ◌>>◌, require, get_client, put_client, set_state,
  set_stream, new_handle, call, read_fd, deref,
}
use tcpserver_cpp_libuv_samp.App.{connection_closed}

-- The base's constructor. It leaves `myUvStream` unset; it is `none` here, and every path sets it
-- before it reads it. The other fields are those of a class that does not have them.
abbrev pub new_client_base : Kind → Bytes → Client
new_client_base kind peer_addr = record {
  kind = kind;
  state = not_connected;
  peer_addr = peer_addr;
  canon_peer_addr = [];
  receive_buffer = [];
  stream = none;
  host = [];
  port = pos 0;
  ping_to_send = 0;
  send_counter = 0;
  peer_send_counter = 0;
  timer = none;
}

abbrev pub set_uv_stream : ℕ → Client → Client
set_uv_stream handle c = record c { stream = some handle }

unfoldable pub new_client_in : ℕ → Bytes → Client
new_client_in handle peer_addr =
    record (set_uv_stream handle (new_client_base client_in peer_addr)) { state = accepted }

unfoldable pub new_client_out : Kind → Bytes → ℤ → ℕ → Client
new_client_out kind host port ping_to_send =
    record (new_client_base kind (host ++ (codes ":" ++ to_string port))) {
      host = host;
      port = port;
      ping_to_send = ping_to_send;
    }

unfoldable pub new_peer_client_out : Bytes → ℤ → Client
unfolding new_client_out
new_peer_client_out host port = new_client_out peer_client_out host port 1

-- `Closing` or `Closed`.
unfoldable pub is_shut : State → Bool
is_shut closing = true
is_shut closed = true
is_shut other = false

-- The states in which `doRead` may be called.
unfoldable pub may_read : State → Bool
may_read accepted = true
may_read sent = true
may_read sending = true
may_read receiving = true
may_read other = false

-- `myState >= Connected && myState < Closed`.
unfoldable pub is_in_use : State → Bool
is_in_use undefined = false
is_in_use not_connected = false
is_in_use connecting = false
is_in_use closed = false
is_in_use other = true

-- The states that `isConnected` refuses.
unfoldable pub is_offline : State → Bool
is_offline undefined = true
is_offline not_connected = true
is_offline connecting = true
is_offline closing = true
is_offline closed = true
is_offline other = false

abbrev pub is_positive : ℤ → Bool
is_positive (pos n) = not (n == 0)
is_positive (negsuc n) = false

module _ (uv : Uv) where
  -- `onClose`: the application forgets the connection, and the handle is deleted.
  unfoldable pub on_close : ℕ → ℕ → M (Unit {0})
  on_close i handle = do
    connection_closed uv i
    _ ← call uv (delete_handle handle)
    set_state i closed

  unfoldable pub close_stream : ℕ → Option ℕ → M (Unit {0})
  unfolding on_close
  close_stream i none = pure tt
  close_stream i (some handle) = do
    set_stream i none
    already ← call uv (uv_is_closing handle)
    if is_zero already then (do _ ← call uv (uv_close handle); pure tt) else on_close i handle

  unfoldable pub close : ℕ → M (Unit {0})
  unfolding close_stream
  close i = do set_state i closing; c ← get_client i; close_stream i c.stream

  -- The write of a message, from the guard on. A null stream is used without a test.
  unfoldable pub send_message : ℕ → Message → M (Unit {0})
  send_message i m = do
    c ← get_client i
    if is_shut c.state then pure tt else do
      set_state i sending
      handle ← deref c.stream
      res ← call uv (uv_write handle (serialize m ++ (b'\n' ∷ [])))
      if is_zero res then pure tt else close i

  unfoldable pub do_read : ℕ → M (Unit {0})
  do_read i = do
    c ← get_client i
    require (may_read c.state)
    set_state i receiving
    handle ← deref c.stream
    res ← call uv (uv_read_start handle)
    if is_negative res then close i else pure tt

  -- The test of the descriptor that `uv_fileno` reports.
  unfoldable pub has_descriptor : ℕ → M Bool
  has_descriptor handle = do
    res ← call uv (uv_fileno handle)
    fd ← read_fd uv handle
    pure (is_zero res && is_positive fd)

  unfoldable pub connected_on : Bool → Option ℕ → M Bool
  unfolding has_descriptor
  connected_on offline none = pure false
  connected_on offline (some handle) = if offline then pure false else has_descriptor handle

  unfoldable pub is_connected : ℕ → M Bool
  unfolding connected_on
  is_connected i = do c ← get_client i; connected_on (is_offline c.state) c.stream

  unfoldable pub connect : ℕ → M ℤ
  connect i = do
    c ← get_client i
    if is_in_use c.state then pure (negsuc 0) else do
      handle ← new_handle
      d ← get_client i
      put_client i (record d { state = connecting; send_counter = 0; stream = some handle })
      _ ← call uv (uv_tcp_init handle)
      call uv (uv_tcp_connect handle c.host c.port)
