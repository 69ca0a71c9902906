-- ===== src/Session/Served.antt =====
-- A session of `NetClientOut` (lib/net_client.cpp) against `ServerApp` (lib/app.cpp): what each side
-- writes is what the other one reads.
use tcpserver_cpp_libuv_samp.Base.{
  ℕ, zero, suc, ◌+◌, ◌<◌, ◌≡◌, refl, sym, ap, ◌∙◌, ==_iff, List, [], ◌∷◌, ◌++◌, map, some, Bytes,
  codes, length, All, All-append, append-nil, append_assoc, if◌then◌else◌, bytes_eq,
}
use tcpserver_cpp_libuv_samp.Base.Int.{pos}
use tcpserver_cpp_libuv_samp.Base.Outcome.{ok}
use tcpserver_cpp_libuv_samp.World.Steps.{bind_step, set_at_self, writes_to}
use tcpserver_cpp_libuv_samp.Text.Words.{IsWord, is_word-IsWord}
use tcpserver_cpp_libuv_samp.Message.{Message, serialize}
use tcpserver_cpp_libuv_samp.Message.RoundTrip.{IsSendable, to_string-IsWord}
use tcpserver_cpp_libuv_samp.World.{
  connecting, Client, Server, server_app, client_app, Call, uv_write, Uv, World,
}
use tcpserver_cpp_libuv_samp.Client.{send_message}
use tcpserver_cpp_libuv_samp.Client.Closing.{sent_world, send_message-sent}
use tcpserver_cpp_libuv_samp.Server.{ping_answer, server_message_received}
use tcpserver_cpp_libuv_samp.Server.Steps.{
  taken, handle_first, message_received-server, taken-stream, taken-open,
}
use tcpserver_cpp_libuv_samp.Server.Answers.{
  answer, answered, TakesWrites, handle_messages-pings, pings-IsSendable,
}
use tcpserver_cpp_libuv_samp.Server.Answers
use tcpserver_cpp_libuv_samp.Events.{ping_text, message_received, process_received_buffer}
use tcpserver_cpp_libuv_samp.Framing.Receive.{buffer}
use tcpserver_cpp_libuv_samp.Framing.Stream.{
  written, handle_messages, process_received_buffer-written,
}
use tcpserver_cpp_libuv_samp.Session.{Works, line, conn}
use tcpserver_cpp_libuv_samp.Session.Pings.{numbered_ping, pings}
use tcpserver_cpp_libuv_samp.Session.Whole.{hello, session, session-pings}

-- The texts of the pings from a number on.
abbrev pub texts : Bytes → ℕ → ℕ → List Bytes
texts addr k zero = []
texts addr k (suc n) = ping_text (codes "_NONE_") addr (k + 1) ∷ texts addr (k + 1) n

pings-texts : (addr : Bytes) (k n : ℕ) → pings addr k n ≡ Answers.pings (texts addr k n)
pings-texts addr k zero = refl
pings-texts addr k (suc n) = ap (◌∷◌ (numbered_ping addr (k + 1))) (pings-texts addr (k + 1) n)

length-texts : (addr : Bytes) (k n : ℕ) → length (texts addr k n) ≡ n
length-texts addr k zero = refl
length-texts addr k (suc n) = ap suc (length-texts addr (k + 1) n)

ping_text-IsWord : (addr : Bytes) (k : ℕ) → IsWord addr → IsWord (ping_text (codes "_NONE_") addr k)
unfolding ping_text
ping_text-IsWord addr k h = (
  λ e. cc,
  All-append _ (codes "Ping_from__NONE__to_") _
      (is_word-IsWord (codes "Ping_from__NONE__to_") refl).1
      (All-append _ addr _ h.1 (
        All-append _ (codes "_") _ (is_word-IsWord (codes "_") refl).1
          (to_string-IsWord (pos k)).1)),
)

texts-IsWord : (addr : Bytes) (k n : ℕ) → IsWord addr → All IsWord (texts addr k n)
texts-IsWord addr k zero h = tt
texts-IsWord addr k (suc n) h = (ping_text-IsWord addr (k + 1) h, texts-IsWord addr (k + 1) n h)

ping_answer-IsWord : (name t : Bytes) → IsWord name → IsWord t → IsWord (ping_answer name t)
unfolding ping_answer
ping_answer-IsWord name t hn ht = (
  λ e. cc,
  All-append _ (codes "Resp_from_") _ (is_word-IsWord (codes "Resp_from_") refl).1 (
      All-append _ name _ hn.1
        (All-append _ (codes "_to_") _ (is_word-IsWord (codes "_to_") refl).1 ht.1)),
)

-- What a server with a name answers: to the handshake of a peer, and to the pings.
abbrev pub welcome : Bytes → Bytes → Message
welcome name peer = Message.handshake_response (codes "V01") name peer

abbrev pub replies : Bytes → Bytes → List Bytes → List Message
replies name peer ts = welcome name peer ∷ map (answer name) ts

answers-IsSendable :
    (name : Bytes) (ts : List Bytes)
    → IsWord name
    → All IsWord ts
    → All IsSendable (map (answer name) ts)
answers-IsSendable name [] hn h = tt
answers-IsSendable name (t ∷ ts) hn (ht, h) =
    (ping_answer-IsWord name t hn ht, answers-IsSendable name ts hn h)

length-answers : (name : Bytes) (ts : List Bytes) → length (map (answer name) ts) ≡ length ts
length-answers name [] = refl
length-answers name (t ∷ ts) = ap suc (length-answers name ts)

module _ (h : ℕ) where
  writes_to-line :
      (m : Message) (calls : List Call)
      → writes_to h (uv_write h (line m) ∷ calls) ≡ writes_to h calls ++ line m
  writes_to-line m calls =
      ap (λ b. if b then writes_to h calls ++ line m else writes_to h calls) ((==_iff h h).1 refl)

  writes_to-answered :
      (name : Bytes) (ts : List Bytes) (calls : List Call)
      → writes_to h (answered name h ts calls) ≡ writes_to h calls ++ written (map (answer name) ts)
  writes_to-answered name [] calls = sym (append-nil (writes_to h calls))
  writes_to-answered name (t ∷ ts) calls =
      let m = answer name t in
      let more = written (map (answer name) ts) in
      writes_to-answered name ts (uv_write h (line m) ∷ calls)
      ∙ ap (λ s. s ++ more) (writes_to-line m calls)
      ∙ append_assoc (writes_to h calls) (line m) more
      ∙ ap (λ s. writes_to h calls ++ s) (append_assoc (serialize m) (b'\n' ∷ []) more)

module _ (uv : Uv) (i h : ℕ) (takes : TakesWrites uv h) where
  taken-peer :
      (m : Message) (w : World) → ((taken uv i m w).client i).peer_addr ≡ (w.client i).peer_addr
  taken-peer m w = rw ((==_iff i i).1 refl)

  hello-answered :
      (name addr : Bytes) (w : World)
      → (w.client i).stream ≡ some h
      → server_message_received uv name i (hello addr) (taken uv i (hello addr) w)
        ≡ ok (
          tt,
          sent_world uv i h (welcome name (w.client i).peer_addr) (taken uv i (hello addr) w),
        )
  unfolding server_message_received bytes_eq
  hello-answered name addr w e =
      let m = hello addr in
      let w1 = taken uv i m w in
      ap (λ p. send_message uv i (welcome name p) w1) (taken-peer m w)
      ∙ send_message-sent uv i h (welcome name (w.client i).peer_addr) w1 (taken-open uv i m w)
          (taken-stream uv i m w ∙ e) (takes w1.trace _)

  -- A read of a whole session of a client.
  served :
      (w : World) (s : Server) (addr : Bytes) (ts : List Bytes)
      → i < w.next_client
      → w.app ≡ server_app s
      → (w.client i).stream ≡ some h
      → IsWord addr
      → All IsWord ts
      → buffer w i ≡ written (hello addr ∷ Answers.pings ts)
      → (v : World) × (process_received_buffer uv i w ≡ ok (tt, v))
        × (writes_to h v.trace
            ≡ writes_to h w.trace ++ written (replies s.name (w.client i).peer_addr ts))
  served w s addr ts lt a e ha hs b =
      let m = hello addr in
      let peer = (w.client i).peer_addr in
      let w1 = taken uv i m w in
      let w2 = sent_world uv i h (welcome s.name peer) w1 in
      let open_stream : (w2.client i).stream ≡ some h =
        rw (set_at_self w1.client i _) (taken-stream uv i m w ∙ e) in
      let (v, run, calls) = handle_messages-pings uv i h takes s ts w2 a open_stream in
      let sendable : All IsSendable (m ∷ Answers.pings ts) = (
        (is_word-IsWord (codes "V01") refl, ha, is_word-IsWord (codes "_NONE_") refl),
        pings-IsSendable ts hs,
      ) in
      let more = written (map (answer s.name) ts) in
      let first = welcome s.name peer in
      (
        v,
        process_received_buffer-written uv i w (m ∷ Answers.pings ts) [] lt sendable tt
              (b ∙ sym (append-nil (written (m ∷ Answers.pings ts))))
            ∙ handle_first uv i m (Answers.pings ts) w
            ∙ bind_step (message_received uv i m) (λ _. handle_messages uv i (Answers.pings ts)) w1
                (message_received-server uv i m s w1 a ∙ hello-answered s.name addr w e)
            ∙ run,
        ap (writes_to h) calls
            ∙ writes_to-answered h s.name ts (uv_write h (line first) ∷ w.trace)
            ∙ ap (λ x. x ++ more) (writes_to-line h first w.trace)
            ∙ append_assoc (writes_to h w.trace) (line first) more
            ∙ ap (λ x. writes_to h w.trace ++ x) (append_assoc (serialize first) (b'\n' ∷ []) more),
      )

-- The two sides of a connection between a `NetClientOut` of a client application, which is
-- connecting, and a server, which has accepted it; libuv takes the writes of both and the reads and
-- the close of the client. The address that the client knows, the server's name, and the address
-- that the server sees are words. Given the server's answers, one by one, the client's session ends
-- without a fault, and it writes a handshake and its numbered pings; given just these bytes, the
-- server handles them without a fault, and it writes just these answers.
pub session-served :
    (uv_c uv_s : Uv) (i j h k : ℕ) (works : Works uv_c h) (takes : TakesWrites uv_s k)
    (base : Client) (s : Server) (wc ws : World)
    → wc.client i ≡ conn h base connecting 0 []
    → wc.app ≡ client_app
    → i < wc.next_client
    → j < ws.next_client
    → ws.app ≡ server_app s
    → (ws.client j).stream ≡ some k
    → IsWord base.peer_addr
    → IsWord s.name
    → IsWord (ws.client j).peer_addr
    → buffer ws j ≡ written (hello base.peer_addr ∷ pings base.peer_addr 0 base.ping_to_send)
    → let answers =
        replies s.name (ws.client j).peer_addr (texts base.peer_addr 0 base.ping_to_send) in
      (vc vs : World) × (session uv_c i h answers wc ≡ ok (tt, vc))
      × (writes_to h vc.trace ≡ writes_to h wc.trace ++ buffer ws j)
      × (process_received_buffer uv_s j ws ≡ ok (tt, vs))
      × (writes_to k vs.trace ≡ writes_to k ws.trace ++ written answers)
session-served uv_c uv_s i j h k works takes base s wc ws c a lt lt' a' e ha hn hp b =
    let addr = base.peer_addr in
    let n = base.ping_to_send in
    let ts = texts addr 0 n in
    let peer = (ws.client j).peer_addr in
    let words_ok = texts-IsWord addr 0 n ha in
    let many : length (replies s.name peer ts) ≡ suc n =
      ap suc (length-answers s.name ts ∙ length-texts addr 0 n) in
    let sendable : All IsSendable (replies s.name peer ts) =
      ((is_word-IsWord (codes "V01") refl, hn, hp), answers-IsSendable s.name ts hn words_ok) in
    let (vc, run, _, _, wrote) =
      session-pings uv_c i h works base (replies s.name peer ts) wc c a lt many sendable in
    let (vs, run', wrote') =
      served uv_s j k takes ws s addr ts lt' a' e ha words_ok
        (b ∙ ap (λ ms. written (hello addr ∷ ms)) (pings-texts addr 0 n)) in
    (vc, vs, run, wrote ∙ ap (λ x. writes_to h wc.trace ++ x) (sym b), run', wrote')
