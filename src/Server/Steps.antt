-- ===== src/Server/Steps.antt =====
-- The handling of one line by a server (`doProcessReceivedBuffer` of lib/net_client.cpp and
-- `messageReceived` of lib/app.cpp).
use tcpserver_cpp_libuv_samp.Base.{ℕ, suc, ◌≡◌, refl, ap, false, List, ◌∷◌, length, drop, ==_iff}
use tcpserver_cpp_libuv_samp.Message.{Message, serialize}
use tcpserver_cpp_libuv_samp.World.{received, Server, App, server_app, Uv, World, set_at, ◌>>◌}
use tcpserver_cpp_libuv_samp.Client.{is_shut}
use tcpserver_cpp_libuv_samp.Server.{server_message_received}
use tcpserver_cpp_libuv_samp.Events.{handle_parsed, message_received, message_received_by}
use tcpserver_cpp_libuv_samp.Framing.Stream.{handle_messages}

module _ (uv : Uv) (i : ℕ) where
  -- The world in which the handler of a message is called: its line is taken off the buffer, and
  -- the state is `received`.
  abbrev pub taken : Message → World → World
  taken m w =
      let c = record (w.client i) {
        receive_buffer = drop (suc (length (serialize m))) (w.client i).receive_buffer;
      } in
      let f = set_at w.client i c in
      record w { client = set_at f i (record (f i) { state = received }) }

  pub handle_first :
      (m : Message) (ms : List Message) (w : World)
      → handle_messages uv i (m ∷ ms) w
        ≡ (message_received uv i m >> handle_messages uv i ms) (taken m w)
  unfolding handle_messages handle_parsed
  handle_first m ms w = refl

  pub message_received-server :
      (m : Message) (s : Server) (w : World)
      → w.app ≡ server_app s
      → message_received uv i m w ≡ server_message_received uv s.name i m w
  unfolding message_received message_received_by
  message_received-server m s w a = ap (λ (app : App). message_received_by uv app i m w) a

  pub taken-stream : (m : Message) (w : World) → ((taken m w).client i).stream ≡ (w.client i).stream
  taken-stream m w = rw ((==_iff i i).1 refl)

  pub taken-open : (m : Message) (w : World) → is_shut ((taken m w).client i).state ≡ false
  unfolding is_shut
  taken-open m w = rw ((==_iff i i).1 refl)
