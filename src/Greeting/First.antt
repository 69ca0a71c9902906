-- ===== src/Greeting/First.antt =====
-- What a node writes on a new outgoing connection (`onConnect` of lib/net_client.cpp, `process` and
-- `onTimer` of node/peer_conn.cpp).
use tcpserver_cpp_libuv_samp.Base.{
  ℕ, ◌≡◌, List, [], ◌∷◌, ◌++◌, Bytes, bytes_eq, codes, if◌then◌else◌,
}
use tcpserver_cpp_libuv_samp.Base.Int.{is_zero}
use tcpserver_cpp_libuv_samp.Text.{to_string}
use tcpserver_cpp_libuv_samp.Dict.{Dict}
use tcpserver_cpp_libuv_samp.Message.{Message}
use tcpserver_cpp_libuv_samp.World.{
  connected, Client, Node, node_app, Call, uv_timer_start, uv_tcp_getpeername, Uv, World, M, set_at,
  call, get_client, put_client, get_app, ◌>>=◌, ◌>>◌,
}
use tcpserver_cpp_libuv_samp.App.{get_name}
use tcpserver_cpp_libuv_samp.Remote.{HostPort, unknown_address, address_of}
use tcpserver_cpp_libuv_samp.Client.{send_message}
use tcpserver_cpp_libuv_samp.Node.{send_other_peers}
use tcpserver_cpp_libuv_samp.Events.{ping_text, on_timer}
use tcpserver_cpp_libuv_samp.Framing.Stream.{written}
use tcpserver_cpp_libuv_samp.Greeting.{IsOnline, IsOn, Does, bind-Does, app-Does, send_message-Does}
use tcpserver_cpp_libuv_samp.Greeting.Known.{known, told, written_more, send_other_peers-Does}

-- The ping with a number, and the handshake, of a node to a peer.
abbrev pub numbered_ping : Node → Bytes → ℕ → Message
numbered_ping n addr k = Message.ping (ping_text n.name addr k)

abbrev pub hello : Node → Bytes → Message
hello n addr = Message.handshake (codes "V01") addr n.name

-- A ping and a handshake, each with the known peers behind it.
abbrev pub greeting : Node → Bytes → ℕ → Dict ℕ → List Message
greeting n addr k m = (numbered_ping n addr k ∷ told addr m) ++ (hello n addr ∷ told addr m)

module _ (uv : Uv) where
  -- What `process` does behind the first timer event.
  abbrev announce : Client → ℕ → M (Unit {0})
  announce c j = do
    app ← get_app
    send_message uv j (Message.handshake (codes "V01") c.peer_addr (get_name app))
    send_other_peers uv j

  abbrev count_from_zero : ℕ → M (Unit {0})
  count_from_zero j = do
    c ← get_client j
    put_client j (record c { peer_send_counter = 0 })
    announce c j

  abbrev finish : ℕ → ℕ → M (Unit {0})
  finish j timer = do _ ← call uv (uv_timer_start timer); count_from_zero j

module _ (uv : Uv) (online : IsOnline uv) {i h : ℕ} {n : Node} {f : ℕ → Client}
    {t : List Call} where
  -- A message, and then the known peers.
  send_both-Does :
      (m : Message) (b : Bytes) (w : World)
      → IsOn i h n f t b w
      → Does i h n f t
          (send_message uv i m >> send_other_peers uv i)
          w
          tt
          (b ++ written (m ∷ told (f i).peer_addr (known f n.peers [])))
  send_both-Does m b w s =
      let others = told (f i).peer_addr (known f n.peers []) in
      rw (← written_more b m others) (
        bind-Does (send_message uv i m) (λ _. send_other_peers uv i) w tt _ tt _
          (send_message-Does uv online m b w s) (send_other_peers-Does uv online _))

  pub on_timer-Does :
      (k : ℕ) (b : Bytes) (w : World)
      → (w.client i).peer_send_counter ≡ k
      → IsOn i h n f t b w
      → Does i h n f t (on_timer uv i) w tt (
          b
          ++ written
              (numbered_ping n (f i).peer_addr k ∷ told (f i).peer_addr (known f n.peers [])))
  unfolding on_timer get_name
  on_timer-Does k b w count s =
      bind-Does get_app
        (λ a.
          send_message uv i (
            Message.ping
              (ping_text (get_name a) (w.client i).peer_addr (w.client i).peer_send_counter))
          >> send_other_peers uv i)
        w (node_app n) b tt _ (app-Does b w s)
        λ v r.
          rw ((s.views i).addr, count) (send_both-Does (numbered_ping n (f i).peer_addr k) b v r)

module _ (uv : Uv) (i h : ℕ) (w : World) where
  -- The address that libuv reports for the handle.
  abbrev pub remote_of : HostPort
  remote_of =
      let a = uv.peername (uv_tcp_getpeername h ∷ w.trace) h in
      if is_zero (uv.result w.trace (uv_tcp_getpeername h))
      then address_of a.family a
      else unknown_address

  -- The connection once it is connected, with the canonical address that it then has.
  abbrev pub met : Client
  met =
      let c = w.client i in
      record c {
        state = connected;
        canon_peer_addr =
            if bytes_eq remote_of.host c.host
            then c.canon_peer_addr
            else remote_of.host ++ (codes ":" ++ to_string c.port);
      }

  abbrev met_world : World
  met_world = record w { client = set_at w.client i met; trace = uv_tcp_getpeername h ∷ w.trace }
