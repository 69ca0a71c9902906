-- ===== src/Server/Answers.antt =====
-- The answers of a server (`messageReceived` of lib/app.cpp) to the pings of a read.
use tcpserver_cpp_libuv_samp.World.Steps.{set_at_self, bind_step}
use tcpserver_cpp_libuv_samp.Base.{
  ℕ, ◌<◌, ◌≡◌, refl, ap, ◌∙◌, true, List, [], ◌∷◌, ◌++◌, some, Bytes, All,
}
use mathlib.Core.Path.{subst}
use tcpserver_cpp_libuv_samp.Base.Int.{is_zero}
use tcpserver_cpp_libuv_samp.Base.Outcome.{ok}
use tcpserver_cpp_libuv_samp.Text.Words.{IsWord}
use tcpserver_cpp_libuv_samp.Text.Split.{Lacks}
use tcpserver_cpp_libuv_samp.Message.{Message, serialize}
use tcpserver_cpp_libuv_samp.Message.RoundTrip.{IsSendable}
use tcpserver_cpp_libuv_samp.World.{Server, server_app, Call, uv_write, Uv, World}
use tcpserver_cpp_libuv_samp.Client.Closing.{sent_world, send_message-sent}
use tcpserver_cpp_libuv_samp.Server.{server_message_received, ping_answer}
use tcpserver_cpp_libuv_samp.Server.Steps.{
  taken, handle_first, message_received-server, taken-stream, taken-open,
}
use tcpserver_cpp_libuv_samp.Events.{process_received_buffer, message_received}
use tcpserver_cpp_libuv_samp.Frame.{After}
use tcpserver_cpp_libuv_samp.Framing.{rest}
use tcpserver_cpp_libuv_samp.Framing.Receive.{buffer}
use tcpserver_cpp_libuv_samp.Framing.Stream.{
  written, handle_messages, lines-written, process_received_buffer-written,
  process_received_buffer-rest,
}

abbrev pub pings : List Bytes → List Message
pings [] = []
pings (t ∷ ts) = Message.ping t ∷ pings ts

abbrev pub answer : Bytes → Bytes → Message
answer name t = Message.ping_response (ping_answer name t)

-- The calls into libuv, newest first, after the answers have been written to a handle.
abbrev pub answered : Bytes → ℕ → List Bytes → List Call → List Call
answered name h [] calls = calls
answered name h (t ∷ ts) calls =
    answered name h ts (uv_write h (serialize (answer name t) ++ (b'\n' ∷ [])) ∷ calls)

pub pings-IsSendable : (ts : List Bytes) → All IsWord ts → All IsSendable (pings ts)
pings-IsSendable [] h = tt
pings-IsSendable (t ∷ ts) (ht, hs) = (ht, pings-IsSendable ts hs)

-- libuv takes every write to a handle.
abbrev pub TakesWrites : Uv → ℕ → Type 0
TakesWrites uv h = (calls : List Call) (b : Bytes) → is_zero (uv.result calls (uv_write h b)) ≡ true

module _ (uv : Uv) (i h : ℕ) (takes : TakesWrites uv h) where
  ping-answered :
      (name t : Bytes) (w : World)
      → (w.client i).stream ≡ some h
      → server_message_received uv name i (Message.ping t) (taken uv i (Message.ping t) w)
        ≡ ok (tt, sent_world uv i h (answer name t) (taken uv i (Message.ping t) w))
  unfolding server_message_received
  ping-answered name t w e =
      let w1 = taken uv i (Message.ping t) w in
      send_message-sent uv i h (answer name t) w1 (taken-open uv i (Message.ping t) w)
        (taken-stream uv i (Message.ping t) w ∙ e) (takes w1.trace _)

  pub handle_messages-pings :
      (s : Server) (ts : List Bytes) (w : World)
      → w.app ≡ server_app s
      → (w.client i).stream ≡ some h
      → (v : World) × (handle_messages uv i (pings ts) w ≡ ok (tt, v))
        × (v.trace ≡ answered s.name h ts w.trace)
  handle_messages-pings s [] w a e = (w, (unfold handle_messages in refl), refl)
  handle_messages-pings s (t ∷ ts) w a e =
      let w1 = taken uv i (Message.ping t) w in
      let w2 = sent_world uv i h (answer s.name t) w1 in
      let open_stream : (w2.client i).stream ≡ some h =
        rw (set_at_self w1.client i _) (taken-stream uv i (Message.ping t) w ∙ e) in
      let (v, run, calls) = handle_messages-pings s ts w2 a open_stream in
      (
        v,
        handle_first uv i (Message.ping t) (pings ts) w
            ∙ bind_step (message_received uv i (Message.ping t))
                (λ _. handle_messages uv i (pings ts)) w1
                (message_received-server uv i (Message.ping t) s w1 a ∙ ping-answered s.name t w e)
            ∙ run,
        calls,
      )

  -- A server whose connection is open and whose writes libuv takes answers a read of any number of
  -- pings, each with a word as its text, and the start of a further line: the run ends without a
  -- fault, the calls into libuv are exactly one write for each ping, in order, with the answer to
  -- its text, and the start of the further line stays in the buffer.
  pub pings-answered :
      (w : World) (s : Server) (ts : List Bytes) (tail : Bytes)
      → i < w.next_client
      → w.app ≡ server_app s
      → (w.client i).stream ≡ some h
      → All IsWord ts
      → Lacks b'\n' tail
      → buffer w i ≡ written (pings ts) ++ tail
      → (v : World) × (process_received_buffer uv i w ≡ ok (tt, v))
        × (v.trace ≡ answered s.name h ts w.trace)
        × (buffer v i ≡ tail)
  pings-answered w s ts tail lt a e hs ht b =
      let (v, run, calls) = handle_messages-pings s ts w a e in
      let sendable = pings-IsSendable ts hs in
      let whole = process_received_buffer-written uv i w (pings ts) tail lt sendable ht b ∙ run in
      (
        v,
        whole,
        calls,
        subst (After (λ u. buffer u i ≡ rest (buffer w i))) whole
              (process_received_buffer-rest uv i w lt)
            ∙ ap rest b
            ∙ (lines-written (pings ts) tail sendable ht).1,
      )
