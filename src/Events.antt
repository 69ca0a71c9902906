-- ===== src/Events.antt =====
-- The callbacks from libuv, with the virtual calls of `process` and `messageReceived` dispatched:
-- lib/net_client.cpp, node/peer_conn.cpp, and `onNewConnection` of lib/net_handler.cpp.
use tcpserver_cpp_libuv_samp.Base.{
  ℕ, zero, suc, ◌+◌, Bool, true, false, ◌++◌, Option, none, some, Bytes, codes, bytes_eq, take,
  drop, length, leb, if◌then◌else◌,
}
use tcpserver_cpp_libuv_samp.Base.Int.{ℤ, pos, negsuc, is_zero, is_negative}
use tcpserver_cpp_libuv_samp.Base.Outcome.{Fault}
use tcpserver_cpp_libuv_samp.Text.{to_string, find, words}
use tcpserver_cpp_libuv_samp.Message.{Message, parse_message}
use tcpserver_cpp_libuv_samp.World.{
  State, connected, sending, sent, receiving, received, Kind, client_in, client_out,
  peer_client_out, App, server_app, client_app, node_app, uv_tcp_init, uv_timer_init,
  uv_timer_start, uv_accept, Uv, M, pure, ◌>>=◌, ◌>>◌, fail, require, lift, get_client, put_client,
  set_state, get_app, new_client, new_handle, call,
}
use tcpserver_cpp_libuv_samp.App.{in_connection_received, get_name}
use tcpserver_cpp_libuv_samp.Client.{new_client_in, close, send_message, do_read}
use tcpserver_cpp_libuv_samp.Server.{server_message_received, client_message_received}
use tcpserver_cpp_libuv_samp.Node.{node_message_received, send_other_peers}
use tcpserver_cpp_libuv_samp.Remote.{remote_address_host_port, remote_address}

-- The text of a ping.
unfoldable pub ping_text : Bytes → Bytes → ℕ → Bytes
ping_text name peer_addr counter =
    codes "Ping_from_"
    ++ (name ++ (codes "_to_" ++ (peer_addr ++ (codes "_" ++ to_string (pos counter)))))

-- The states in which a write may end.
unfoldable pub may_end_write : State → Bool
may_end_write sending = true
may_end_write receiving = true
may_end_write received = true
may_end_write other = false

module _ (uv : Uv) where
  unfoldable pub message_received_by : App → ℕ → Message → M (Unit {0})
  message_received_by (server_app s) i m = server_message_received uv s.name i m
  message_received_by client_app i m = client_message_received i m
  message_received_by (node_app n) i m = node_message_received uv i m

  unfoldable pub message_received : ℕ → Message → M (Unit {0})
  unfolding message_received_by
  message_received i m = do app ← get_app; message_received_by app i m

  -- `NetClientOut::process`.
  unfoldable pub process_out_in : State → ℕ → M (Unit {0})
  process_out_in connected i = do
    c ← get_client i
    put_client i (record c { send_counter = 0 })
    app ← get_app
    send_message uv i (Message.handshake (codes "V01") c.peer_addr (get_name app))
  process_out_in sending i = do
    c ← get_client i
    put_client i (record c { send_counter = c.send_counter + 1 })
    do_read uv i
  process_out_in sent i = do_read uv i
  process_out_in receiving i = do_read uv i
  process_out_in received i = do
    c ← get_client i
    app ← get_app
    if leb (1 + c.ping_to_send) c.send_counter
        then close uv i
        else if leb 1 c.send_counter
        then send_message uv i (Message.ping (ping_text (get_name app) c.peer_addr c.send_counter))
        else pure tt
  process_out_in other i = fail Fault.assertion

  -- `PeerClientOut::onTimer`.
  unfoldable pub on_timer : ℕ → M (Unit {0})
  on_timer i = do
    c ← get_client i
    app ← get_app
    send_message uv i (Message.ping (ping_text (get_name app) c.peer_addr c.peer_send_counter))
    send_other_peers uv i

  -- `PeerClientOut::process`.
  unfoldable pub process_peer_in : State → ℕ → M (Unit {0})
  process_peer_in connected i = do
    timer ← new_handle
    c ← get_client i
    put_client i (record c { timer = some timer })
    _ ← call uv (uv_timer_init timer)
    on_timer i
    _ ← call uv (uv_timer_start timer)
    c' ← get_client i
    put_client i (record c' { peer_send_counter = 0 })
    app ← get_app
    send_message uv i (Message.handshake (codes "V01") c'.peer_addr (get_name app))
    send_other_peers uv i
  process_peer_in sending i = do
    c ← get_client i
    put_client i (record c { peer_send_counter = c.peer_send_counter + 1 })
    do_read uv i
  process_peer_in sent i = do_read uv i
  process_peer_in receiving i = do_read uv i
  process_peer_in received i = pure tt
  process_peer_in other i = fail Fault.assertion

  -- The virtual `process`; the base's is empty.
  unfoldable pub process_as : Kind → State → ℕ → M (Unit {0})
  process_as client_in s i = pure tt
  process_as client_out s i = process_out_in s i
  process_as peer_client_out s i = process_peer_in s i

  unfoldable pub process : ℕ → M (Unit {0})
  process i = do c ← get_client i; process_as c.kind c.state i

  -- A line without its terminator: the second half of the loop of `doProcessReceivedBuffer`.
  unfoldable pub handle_parsed : ℕ → Option Message → M (Unit {0})
  handle_parsed i none = pure tt
  handle_parsed i (some m) = do set_state i received; message_received i m

  unfoldable pub process_line : ℕ → Bytes → M (Unit {0})
  process_line i line = do parsed ← lift (parse_message (words line)); handle_parsed i parsed

  -- A round of the loop of `doProcessReceivedBuffer`, from the place of the terminator; `next` is
  -- the rest of the loop.
  unfoldable pub take_line : M (Unit {0}) → ℕ → Option ℕ → M (Unit {0})
  take_line next i none = pure tt
  take_line next i (some k) = do
    c ← get_client i
    put_client i (record c { receive_buffer = drop (suc k) c.receive_buffer })
    process_line i (take k c.receive_buffer)
    next

  -- The loop, with fuel for its rounds. An empty buffer has no terminator.
  unfoldable pub drain : ℕ → ℕ → M (Unit {0})
  unfolding take_line
  drain zero i = pure tt
  drain (suc f) i = do c ← get_client i; take_line (drain f i) i (find b'\n' c.receive_buffer)

  unfoldable pub process_received_buffer : ℕ → M (Unit {0})
  process_received_buffer i = do c ← get_client i; drain (length c.receive_buffer) i

  unfoldable pub append_received : ℕ → ℕ → Option Bytes → M (Unit {0})
  append_received i n none = pure tt
  append_received i n (some buf) = do
    c ← get_client i
    put_client i (record c { receive_buffer = c.receive_buffer ++ take n buf })
    process_received_buffer i

  -- `onRead`, where `none` is a buffer with a null base.
  unfoldable pub on_read : ℕ → ℤ → Option Bytes → M (Unit {0})
  on_read i (negsuc n) buf = close uv i
  on_read i (pos zero) buf = close uv i
  on_read i (pos (suc n)) buf = do append_received i (suc n) buf; process i

  unfoldable pub on_write : ℕ → ℤ → M (Unit {0})
  on_write i status = do
    c ← get_client i
    require (may_end_write c.state)
    if is_zero status then process i else close uv i

  -- `NetClientOut::onConnect`; `handle` is the handle of the request.
  unfoldable pub on_connect : ℕ → ℕ → ℤ → M (Unit {0})
  on_connect i handle status =
      if is_zero status
      then (do
        remote ← remote_address_host_port uv handle
        c ← get_client i
        put_client i (record c {
          state = connected;
          canon_peer_addr =
              if bytes_eq remote.host c.host
              then c.canon_peer_addr
              else remote.host ++ (codes ":" ++ to_string c.port);
        })
        process i)
      else pure tt

  -- `NetHandler::onNewConnection`.
  unfoldable pub on_new_connection : ℕ → ℤ → M (Unit {0})
  on_new_connection server status = if is_negative status then pure tt else do
    handle ← new_handle
    _ ← call uv (uv_tcp_init handle)
    res ← call uv (uv_accept server handle)
    if is_negative res then pure tt else do
      addr ← remote_address uv handle
      i ← new_client (new_client_in handle addr)
      in_connection_received i
      do_read uv i
