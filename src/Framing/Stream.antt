-- ===== src/Framing/Stream.antt =====
-- From `sendMessage` to `messageReceived` (lib/net_client.cpp): the bytes that one side writes for a
-- list of messages, and the receive loop of the other side over them.
use tcpserver_cpp_libuv_samp.Base.{
  ℕ, suc, ◌<◌, ◌≡◌, refl, ap, ◌∙◌, List, [], ◌∷◌, ◌++◌, map, append_assoc, some, arith, Bytes, All,
  All-append, length, drop,
}
use tcpserver_cpp_libuv_samp.Base.Outcome.{Outcome, ok, fault}
use tcpserver_cpp_libuv_samp.Text.Words.{IsWord, NoSpace, spaced}
use tcpserver_cpp_libuv_samp.Text.Split.{Lacks}
use tcpserver_cpp_libuv_samp.Message.{Message, serialize}
use tcpserver_cpp_libuv_samp.Message.RoundTrip.{
  IsSendable, tokens, tokens-All, serialize-spaced, parse_message-serialize,
}
use tcpserver_cpp_libuv_samp.World.{Uv, World, M, pure, lift, get_client, put_client, ◌>>=◌, ◌>>◌}
use tcpserver_cpp_libuv_samp.Events.{process_line, handle_parsed, process_received_buffer, drain}
use tcpserver_cpp_libuv_samp.Frame.{After}
use tcpserver_cpp_libuv_samp.Framing.{lines, rest, lines_first, rest_first, lines_none}
use tcpserver_cpp_libuv_samp.Framing.Receive.{buffer, deliver, drain-deliver, drain-rest}

NoSpace-Lacks : (w : Bytes) → NoSpace w → Lacks b'\n' w
NoSpace-Lacks [] h = tt
NoSpace-Lacks (c ∷ w) (hc, hw) = (ground arith, NoSpace-Lacks w hw)

spaced-Lacks : (ws : List Bytes) → All IsWord ws → Lacks b'\n' (spaced ws)
unfolding spaced
spaced-Lacks [] h = tt
spaced-Lacks (w ∷ []) (hw, _) = NoSpace-Lacks w hw.1
spaced-Lacks (w ∷ v ∷ ws) (hw, hs) =
    All-append _ w _ (NoSpace-Lacks w hw.1) (omega arith, spaced-Lacks (v ∷ ws) hs)

-- A sendable message is written on one line.
pub serialize-Lacks : (m : Message) → IsSendable m → Lacks b'\n' (serialize m)
serialize-Lacks m h = rw (serialize-spaced m) (spaced-Lacks (tokens m) (tokens-All m h))

-- What `sendMessage` writes for one message after the other.
abbrev pub written : List Message → Bytes
written [] = []
written (m ∷ ms) = serialize m ++ (b'\n' ∷ written ms)

pub lines-written :
    (ms : List Message) (s : Bytes)
    → All IsSendable ms
    → Lacks b'\n' s
    → (lines (written ms ++ s) ≡ map serialize ms) × (rest (written ms ++ s) ≡ s)
lines-written [] s h hs = lines_none s hs
lines-written (m ∷ ms) s (hm, h) hs =
    let ih = lines-written ms s h hs in
    let one = serialize-Lacks m hm in
    (
      rw (append_assoc (serialize m) (b'\n' ∷ written ms) s)
          (lines_first (serialize m) (written ms ++ s) one ∙ ap (◌∷◌ (serialize m)) ih.0),
      rw (append_assoc (serialize m) (b'\n' ∷ written ms) s)
          (rest_first (serialize m) (written ms ++ s) one ∙ ih.1),
    )

module _ (uv : Uv) (i : ℕ) where
  -- Each message's line is taken off the buffer, and the message is handled.
  unfoldable pub handle_messages : List Message → M (Unit {0})
  handle_messages [] = pure tt
  handle_messages (m ∷ ms) = do
    c ← get_client i
    put_client i (record c { receive_buffer = drop (suc (length (serialize m))) c.receive_buffer })
    handle_parsed uv i (some m)
    handle_messages ms

  process_line-serialize :
      (m : Message) → IsSendable m → process_line uv i (serialize m) ≡ handle_parsed uv i (some m)
  unfolding process_line
  process_line-serialize m h = ap (λ r. lift r >>= handle_parsed uv i) (parse_message-serialize m h)

  deliver-map :
      (ms : List Message) → All IsSendable ms → deliver uv i (map serialize ms) ≡ handle_messages ms
  unfolding deliver handle_messages
  deliver-map [] h = refl
  deliver-map (m ∷ ms) (hm, h) = λ k. get_client i >>= λ c.
      put_client i
        (record c { receive_buffer = drop (suc (length (serialize m))) c.receive_buffer })
      >> (process_line-serialize m hm k >> deliver-map ms h k)

  -- The receive loop over the bytes that `sendMessage` writes for a list of sendable messages (their
  -- text fields are words, their ports are of `int`), followed by a part of a line, does what
  -- handling exactly these messages in order does, faults included.
  pub process_received_buffer-written :
      (w : World) (ms : List Message) (s : Bytes)
      → i < w.next_client
      → All IsSendable ms
      → Lacks b'\n' s
      → buffer w i ≡ written ms ++ s
      → process_received_buffer uv i w ≡ handle_messages ms w
  unfolding process_received_buffer
  process_received_buffer-written w ms s lt h hs e =
      drain-deliver uv i (length (buffer w i)) w lt (omega arith)
      ∙ ap (λ ls. deliver uv i ls w) (ap lines e ∙ (lines-written ms s h hs).0)
      ∙ ap (λ (m : M (Unit {0})). m w) (deliver-map ms h)

  -- A run of the receive loop that ends without a fault leaves in the buffer what is behind the
  -- last end of line, for any bytes and any handlers.
  pub process_received_buffer-rest :
      (w : World)
      → i < w.next_client
      → After (λ v. buffer v i ≡ rest (buffer w i)) (process_received_buffer uv i w)
  unfolding process_received_buffer
  process_received_buffer-rest w lt = go (drain uv (length (buffer w i)) i w) refl
    where
      go :
          (r : Outcome (Unit {0} × World))
          → drain uv (length (buffer w i)) i w ≡ r
          → After (λ v. buffer v i ≡ rest (buffer w i)) r
      go (ok (_, v)) e = (drain-rest uv i (length (buffer w i)) w v lt (omega arith) e).0
      go (fault x) e = tt
