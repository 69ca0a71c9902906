-- ===== src/Kept/Callbacks.antt =====
-- The callbacks from libuv (lib/net_client.cpp, lib/net_handler.cpp, node/peer_conn.cpp), for any
-- predicate with the laws.
use tcpserver_cpp_libuv_samp.Base.{
  ℕ, zero, suc, ◌+◌, ◌++◌, Bytes, Option, none, some, take, drop, length, codes, bytes_eq, refl,
  if◌then◌else◌,
}
use tcpserver_cpp_libuv_samp.Base.Int.{ℤ, pos, negsuc, is_zero}
use tcpserver_cpp_libuv_samp.Message.{Message}
use tcpserver_cpp_libuv_samp.Text.{find, to_string}
use tcpserver_cpp_libuv_samp.App.{get_name}
use tcpserver_cpp_libuv_samp.World.{
  State, connected, sending, sent, receiving, received, Kind, client_in, client_out,
  peer_client_out, uv_timer_init, uv_timer_start, uv_tcp_getpeername, Uv, World, M,
}
use tcpserver_cpp_libuv_samp.Remote.{address_of, unknown_address, remote_address_host_port}
use tcpserver_cpp_libuv_samp.Events.{
  process_out_in, process_peer_in, process_as, process, on_timer, on_write, on_connect, on_read,
  handle_parsed, process_line, take_line, drain, process_received_buffer, append_received,
}
use tcpserver_cpp_libuv_samp.Kept.{
  kept, Kept, Laws, bind-Kept, then-Kept, if-Kept, pure-Kept, get_client-Kept, get_app-Kept,
  read_peername-Kept, update-Kept, set_state-Kept, new_handle-Kept, call-Kept,
}
use tcpserver_cpp_libuv_samp.Kept.Handlers.{send_other_peers-Kept, message_received-Kept}

module _ (uv : Uv) {P : World → Type 0} (L : Laws uv P) where
  process_out_in-Kept : (s : State) (i : ℕ) → Kept P (process_out_in uv s i)
  unfolding process_out_in
  process_out_in-Kept connected i =
      update-Kept L i (λ c. record c { send_counter = 0 }) _ (λ c. (refl, refl))
        λ c.
          bind-Kept _ _ get_app-Kept
            λ app. L.sends i (Message.handshake (codes "V01") c.peer_addr (get_name app))
  process_out_in-Kept sending i =
      update-Kept L i (λ c. record c { send_counter = c.send_counter + 1 }) _ (λ c. (refl, refl))
        λ _. L.reads i
  process_out_in-Kept sent i = L.reads i
  process_out_in-Kept receiving i = L.reads i
  process_out_in-Kept received i = search (kept, L.closes, L.sends)
  process_out_in-Kept other i = search kept

  pub on_timer-Kept : (i : ℕ) → Kept P (on_timer uv i)
  unfolding on_timer
  on_timer-Kept i = search (kept, send_other_peers-Kept uv L, L.sends) depth 9

  process_peer_in-Kept : (s : State) (i : ℕ) → Kept P (process_peer_in uv s i)
  unfolding process_peer_in
  process_peer_in-Kept connected i = bind-Kept _ _ (new_handle-Kept L) λ timer.
      update-Kept L i (λ c. record c { timer = some timer }) _ (λ c. (refl, refl))
        λ _. bind-Kept _ _ (call-Kept L (uv_timer_init timer) refl) λ _.
          then-Kept _ _ (on_timer-Kept i) (
            bind-Kept _ _ (call-Kept L (uv_timer_start timer) refl) λ _.
              update-Kept L i (λ c. record c { peer_send_counter = 0 }) _ (λ c. (refl, refl))
                λ c. bind-Kept _ _ get_app-Kept λ app.
                  then-Kept _ _
                    (L.sends i (Message.handshake (codes "V01") c.peer_addr (get_name app)))
                    (send_other_peers-Kept uv L i))
  process_peer_in-Kept sending i =
      update-Kept L i (λ c. record c { peer_send_counter = c.peer_send_counter + 1 }) _
        (λ c. (refl, refl)) λ _. L.reads i
  process_peer_in-Kept sent i = L.reads i
  process_peer_in-Kept receiving i = L.reads i
  process_peer_in-Kept received i = pure-Kept tt
  process_peer_in-Kept other i = search kept

  process_as-Kept : (k : Kind) (s : State) (i : ℕ) → Kept P (process_as uv k s i)
  unfolding process_as
  process_as-Kept client_in s i = pure-Kept tt
  process_as-Kept client_out s i = process_out_in-Kept s i
  process_as-Kept peer_client_out s i = process_peer_in-Kept s i

  process-Kept : (i : ℕ) → Kept P (process uv i)
  unfolding process
  process-Kept i = search (kept, process_as-Kept)

  handle_parsed-Kept : (i : ℕ) (o : Option Message) → Kept P (handle_parsed uv i o)
  unfolding handle_parsed
  handle_parsed-Kept i none = pure-Kept tt
  handle_parsed-Kept i (some m) =
      then-Kept _ _ (set_state-Kept L i received) (message_received-Kept uv L i m)

  process_line-Kept : (i : ℕ) (line : Bytes) → Kept P (process_line uv i line)
  unfolding process_line
  process_line-Kept i line = search (kept, handle_parsed-Kept)

  take_line-Kept :
      (next : M (Unit {0})) (i : ℕ) (o : Option ℕ) → Kept P next → Kept P (take_line uv next i o)
  unfolding take_line
  take_line-Kept next i none h = pure-Kept tt
  take_line-Kept next i (some k) h =
      update-Kept L i (λ c. record c { receive_buffer = drop (suc k) c.receive_buffer }) _
        (λ c. (refl, refl)) λ c. then-Kept _ _ (process_line-Kept i (take k c.receive_buffer)) h

  drain-Kept : (f i : ℕ) → Kept P (drain uv f i)
  unfolding drain
  drain-Kept zero i = pure-Kept tt
  drain-Kept (suc f) i =
      bind-Kept _ _ (get_client-Kept i)
        λ c. take_line-Kept (drain uv f i) i (find b'\n' c.receive_buffer) (drain-Kept f i)

  append_received-Kept : (i n : ℕ) (buf : Option Bytes) → Kept P (append_received uv i n buf)
  unfolding append_received process_received_buffer
  append_received-Kept i n none = pure-Kept tt
  append_received-Kept i n (some buf) =
      update-Kept L i (λ c. record c { receive_buffer = c.receive_buffer ++ take n buf }) _
        (λ c. (refl, refl))
        λ c. bind-Kept _ _ (get_client-Kept i) λ d. drain-Kept (length d.receive_buffer) i

  pub on_read-Kept : (i : ℕ) (count : ℤ) (buf : Option Bytes) → Kept P (on_read uv i count buf)
  unfolding on_read
  on_read-Kept i (negsuc n) buf = L.closes i
  on_read-Kept i (pos zero) buf = L.closes i
  on_read-Kept i (pos (suc n)) buf = search (kept, append_received-Kept, process-Kept)

  pub on_write-Kept : (i : ℕ) (status : ℤ) → Kept P (on_write uv i status)
  unfolding on_write
  on_write-Kept i status = search (kept, process-Kept, L.closes)

  pub remote_host_port-Kept : (handle : ℕ) → Kept P (remote_address_host_port uv handle)
  unfolding remote_address_host_port
  remote_host_port-Kept handle = bind-Kept _ _ (call-Kept L (uv_tcp_getpeername handle) refl) λ res.
      bind-Kept _ _ (read_peername-Kept uv handle)
        λ a. pure-Kept (if is_zero res then address_of a.family a else unknown_address)

  pub on_connect-Kept : (i handle : ℕ) (status : ℤ) → Kept P (on_connect uv i handle status)
  unfolding on_connect
  on_connect-Kept i handle status =
      if-Kept (is_zero status) _ _
        (bind-Kept _ _ (remote_host_port-Kept handle) λ remote.
          update-Kept L i
            (λ c. record c {
              state = connected;
              canon_peer_addr =
                  if bytes_eq remote.host c.host
                  then c.canon_peer_addr
                  else remote.host ++ (codes ":" ++ to_string c.port);
            })
            _ (λ c. (refl, refl)) λ _. process-Kept i)
        (pure-Kept tt)
