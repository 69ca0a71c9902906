-- ===== src/Session/Pings.antt =====
-- The whole session of `NetClientOut` (lib/net_client.cpp): a handshake, a ping for each answer but
-- the last, and the end.
use tcpserver_cpp_libuv_samp.World.Steps.{bind_step}
use tcpserver_cpp_libuv_samp.Base.{
  ℕ, zero, suc, ◌+◌, ◌≤◌, ◌≡◌, refl, ap, ◌∙◌, true, false, List, [], ◌∷◌, none, some, Bytes, codes,
  arith, length, All, leb,
}
use tcpserver_cpp_libuv_samp.Base.Int.{pos}
use tcpserver_cpp_libuv_samp.Base.Outcome.{ok}
use tcpserver_cpp_libuv_samp.Message.{Message, serialize}
use tcpserver_cpp_libuv_samp.Message.RoundTrip.{IsSendable}
use tcpserver_cpp_libuv_samp.World.{
  sending, receiving, received, closing, Client, Call, uv_write, uv_read_start, uv_is_closing,
  uv_close, Uv, World,
}
use tcpserver_cpp_libuv_samp.App.{get_name}
use tcpserver_cpp_libuv_samp.Client.{may_read, is_shut, do_read, send_message}
use tcpserver_cpp_libuv_samp.Client.Closing.{IsGivenUp}
use tcpserver_cpp_libuv_samp.Events.{
  may_end_write, ping_text, process_out_in, process, on_write, on_read, append_received,
}
use tcpserver_cpp_libuv_samp.Session.{
  Works, line, round, rounds, conn, IsAt, Ends, then-Ends, update-Ends, do_read-Ends,
  send_message-Ends, process-Ends, app-Ends,
}
use tcpserver_cpp_libuv_samp.Session.Closed.{close-Ends}
use tcpserver_cpp_libuv_samp.Session.Received.{append_received-Ends}

-- The ping with a number, as the client application writes it.
abbrev pub numbered_ping : Bytes → ℕ → Message
numbered_ping addr k = Message.ping (ping_text (codes "_NONE_") addr k)

-- The pings from a number on.
abbrev pub pings : Bytes → ℕ → ℕ → List Message
pings addr k zero = []
pings addr k (suc n) = numbered_ping addr (k + 1) ∷ pings addr (k + 1) n

module _ (uv : Uv) (i h : ℕ) (works : Works uv h) (base : Client) where
  on_write-Ends :
      (k : ℕ) (t : List Call) (w : World)
      → IsAt i (conn h base sending k []) t w
      → Ends i (on_write uv i (pos 0)) w (conn h base receiving (k + 1) []) (uv_read_start h ∷ t)
  unfolding on_write may_end_write process_out_in may_read
  on_write-Ends k t w s = rw s.client (
      process-Ends uv i h works _ _ _ _ w s refl (
        update-Ends uv i h works (λ c. record c { send_counter = c.send_counter + 1 })
          (λ c. do_read uv i) w _ _ _ _ s λ v r. do_read-Ends uv i h works _ _ v r refl refl))

  -- The end of the session: all pings are answered.
  last-Ends :
      (k : ℕ) (t : List Call) (w : World)
      → 1 + base.ping_to_send ≤ k
      → IsAt i (conn h base received k []) t w
      → Ends i
          (process uv i)
          w
          (record (conn h base closing k []) { stream = none })
          (uv_close h ∷ uv_is_closing h ∷ t)
  unfolding process_out_in
  last-Ends k t w le s =
      let done : leb (1 + base.ping_to_send) k ≡ true = ground (arith, le) in
      process-Ends uv i h works _ _ _ _ w s refl
        (rw (s.client, done) (close-Ends uv i h works _ t w s refl))

  next-Ends :
      (k : ℕ) (t : List Call) (w : World)
      → suc k ≤ base.ping_to_send
      → IsAt i (conn h base received (k + 1) []) t w
      → Ends i
          (process uv i)
          w
          (conn h base sending (k + 1) [])
          (uv_write h (line (numbered_ping base.peer_addr (k + 1))) ∷ t)
  unfolding process_out_in get_name is_shut
  next-Ends k t w le s =
      let more : leb (1 + base.ping_to_send) (k + 1) ≡ false = ground (arith, le) in
      let counted : leb 1 (k + 1) ≡ true = ground arith in
      process-Ends uv i h works _ _ _ _ w s refl (
        rw (s.client, more, counted)
          (app-Ends uv i h works
            (λ a. send_message uv i (Message.ping (ping_text (get_name a) base.peer_addr (k + 1))))
            w _ _ _ _ s
            (send_message-Ends uv i h works _ t (numbered_ping base.peer_addr (k + 1)) w s refl
              refl)))

  -- The calls of the rounds, newest first, from a count on with a number of pings left.
  abbrev pub session_calls : ℕ → ℕ → List Call → List Call
  session_calls k zero t = uv_close h ∷ uv_is_closing h ∷ uv_read_start h ∷ t
  session_calls k (suc n) t =
      session_calls (k + 1) n
        (uv_write h (line (numbered_ping base.peer_addr (k + 1))) ∷ uv_read_start h ∷ t)

  -- The end of a session.
  abbrev pub IsDone : List Call → World → Type 0
  IsDone calls v = IsGivenUp i v × (v.trace ≡ calls)

  before_last :
      (k : ℕ) (t : List Call) (m : Message) (w : World) (d : Client) (u : List Call)
      → IsSendable m
      → IsAt i (conn h base sending k []) t w
      → ((v : World)
          → IsAt i (conn h base received (k + 1) []) (uv_read_start h ∷ t) v
          → Ends i (process uv i) v d u)
      → Ends i (round uv i m) w d u
  unfolding round on_read
  before_last k t m w d u hm s rest =
      then-Ends uv i h works (on_write uv i (pos 0)) _ w _ d _ u (on_write-Ends k t w s) λ v r.
        then-Ends uv i h works (append_received uv i (suc (length (serialize m))) (some (line m)))
          (process uv i) v _ d _ u (append_received-Ends uv i h works base (k + 1) _ m v hm r) rest

  pub rounds-IsDone :
      (ms : List Message) (n k : ℕ) (t : List Call) (w : World)
      → length ms ≡ suc n
      → k + n ≡ base.ping_to_send
      → All IsSendable ms
      → IsAt i (conn h base sending k []) t w
      → (v : World) × (rounds uv i ms w ≡ ok (tt, v)) × IsDone (session_calls k n t) v
  unfolding rounds is_shut
  rounds-IsDone [] n k t w e f hs s = absurd (omega arith)
  rounds-IsDone (m ∷ []) zero k t w e f (hm, hs) s =
      let (v, p, r) = before_last k t m w _ _ hm s (λ v r. last-Ends (k + 1) _ v (omega arith) r) in
      (
        v,
        bind_step (round uv i m) _ w p,
        (
          record {
            no_stream = ap (λ (c : Client). c.stream) r.client;
            shut = ap (λ (c : Client). is_shut c.state) r.client;
          },
          r.trace,
        ),
      )
  rounds-IsDone (m ∷ []) (suc n) k t w e f hs s = absurd (omega arith)
  rounds-IsDone (m ∷ a ∷ ms) zero k t w e f hs s = absurd (omega arith)
  rounds-IsDone (m ∷ a ∷ ms) (suc n) k t w e f (hm, hs) s =
      let (v, p, r) = before_last k t m w _ _ hm s (λ v r. next-Ends k _ v (omega arith) r) in
      let (x, q, done) = rounds-IsDone (a ∷ ms) n (k + 1) _ v (omega arith) (omega arith) hs r in
      (x, bind_step (round uv i m) _ w p ∙ q, done)
