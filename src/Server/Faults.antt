-- ===== src/Server/Faults.antt =====
-- Lines of a peer that end a server (`ServerApp` of lib/app.cpp) in a fault.
use tcpserver_cpp_libuv_samp.Server.Steps.{
  taken, handle_first, message_received-server, taken-stream, taken-open,
}
use tcpserver_cpp_libuv_samp.World.Steps.{bind_fault, bind_step}
use tcpserver_cpp_libuv_samp.Base.{
  ℕ, ◌<◌, ◌≡◌, ◌≢◌, ap, ◌∙◌, false, List, ◌∷◌, ◌++◌, Option, none, some, Bytes, codes, bytes_eq,
  bytes_eq_iff, All, Bool-cases, inl, inr,
}
use tcpserver_cpp_libuv_samp.Base.Int.{is_zero}
use tcpserver_cpp_libuv_samp.Base.Outcome.{ok, fault, Fault}
use tcpserver_cpp_libuv_samp.Text.Split.{Lacks}
use tcpserver_cpp_libuv_samp.Message.{Message}
use tcpserver_cpp_libuv_samp.Message.RoundTrip.{IsSendable}
use tcpserver_cpp_libuv_samp.World.{Server, server_app, uv_is_closing, Uv, World}
use tcpserver_cpp_libuv_samp.App.Dropped.{destroyed-IsSpared}
use tcpserver_cpp_libuv_samp.App.{closed_app, erase_client}
use tcpserver_cpp_libuv_samp.Client.{is_shut}
use tcpserver_cpp_libuv_samp.Client.Closing.{
  marked, unhooked, given_up, close-given_up, close-IsGivenUp, send_outcome,
  send_message-send_outcome,
}
use tcpserver_cpp_libuv_samp.Server.{server_message_received, ping_answer}
use tcpserver_cpp_libuv_samp.Events.{process_received_buffer, message_received}
use tcpserver_cpp_libuv_samp.Framing.Receive.{buffer}
use tcpserver_cpp_libuv_samp.Framing.Stream.{
  written, handle_messages, process_received_buffer-written,
}

module _ (uv : Uv) (i : ℕ) where
  wrong_version-close :
      (name v y m : Bytes) (w : World)
      → v ≢ codes "V01"
      → server_message_received uv name i (Message.handshake v y m) w
        ≡ ok (tt, given_up uv i (w.client i).stream (marked uv i w))
  unfolding server_message_received
  wrong_version-close name v y m w h = elim (Bool-cases (bytes_eq v (codes "V01"))) [
    | inl same ↦ absurd (h ((bytes_eq_iff v (codes "V01")).0 same))
    | inr other ↦ rw other (close-given_up uv i w)
  ]

  ping-fault :
      (name t : Bytes) (w : World)
      → (w.client i).stream ≡ none
      → is_shut (w.client i).state ≡ false
      → server_message_received uv name i (Message.ping t) w ≡ fault Fault.null_pointer
  unfolding server_message_received
  ping-fault name t w no_stream open_state =
      send_message-send_outcome uv i (Message.ping_response (ping_answer name t)) w
      ∙ (unfold send_outcome in rw (open_state, no_stream))

  given_up-server :
      (o : Option ℕ) (w : World) (s : Server)
      → w.app ≡ server_app s
      → (s' : Server) × ((given_up uv i o w).app ≡ server_app s')
  unfolding given_up closed_app
  given_up-server none w s a = (s, a)
  given_up-server (some handle) w s a =
      elim (Bool-cases (is_zero (uv.result w.trace (uv_is_closing handle)))) [
        | inl e ↦ (s, rw e a)
        | inr e ↦ (
          record s { clients = erase_client i s.clients },
          rw e ((destroyed-IsSpared _ _).app ∙ ap (closed_app (unhooked uv i w).client i) a),
        )
      ]

  -- On a server a handshake of a wrong version closes the connection, but a ping behind it in the
  -- same buffer (of sendable messages and a part of a line) is still handled, and its answer is
  -- written to the null stream: the process ends in the use of a null pointer.
  pub wrong_version_then_ping :
      (w : World) (s : Server) (v y m t : Bytes) (ms : List Message) (tail : Bytes)
      → i < w.next_client
      → w.app ≡ server_app s
      → v ≢ codes "V01"
      → All IsSendable (Message.handshake v y m ∷ Message.ping t ∷ ms)
      → Lacks b'\n' tail
      → buffer w i ≡ written (Message.handshake v y m ∷ Message.ping t ∷ ms) ++ tail
      → process_received_buffer uv i w ≡ fault Fault.null_pointer
  wrong_version_then_ping w s v y m t ms tail lt a h hs ht e =
      let hello = Message.handshake v y m in
      let w1 = taken uv i hello w in
      let w2 = given_up uv i (w1.client i).stream (marked uv i w1) in
      let w3 = taken uv i (Message.ping t) w2 in
      let gone = close-IsGivenUp uv i w1 in
      let (s2, a2) = given_up-server (w1.client i).stream (marked uv i w1) s a in
      process_received_buffer-written uv i w (hello ∷ Message.ping t ∷ ms) tail lt hs ht e
      ∙ handle_first uv i hello (Message.ping t ∷ ms) w
      ∙ bind_step (message_received uv i hello) (λ _. handle_messages uv i (Message.ping t ∷ ms)) w1
          (message_received-server uv i hello s w1 a ∙ wrong_version-close s.name v y m w1 h)
      ∙ handle_first uv i (Message.ping t) ms w2
      ∙ bind_fault (message_received uv i (Message.ping t)) (λ _. handle_messages uv i ms) w3
          (message_received-server uv i (Message.ping t) s2 w3 a2
            ∙ ping-fault s2.name t w3 (taken-stream uv i (Message.ping t) w2 ∙ gone.no_stream)
                (taken-open uv i (Message.ping t) w2))
