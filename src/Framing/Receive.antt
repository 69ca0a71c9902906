-- ===== src/Framing/Receive.antt =====
-- The receive loop `doProcessReceivedBuffer` of lib/net_client.cpp as a delivery of lines.
use tcpserver_cpp_libuv_samp.World.Steps.{set_at_self, bind-cong, bind-ok}
use tcpserver_cpp_libuv_samp.Base.{
  ℕ, zero, suc, ◌≤◌, ◌<◌, ◌≡◌, refl, sym, ap, ◌∙◌, List, [], ◌∷◌, none, some, arith, Bytes, length,
  take, drop, length-take, length-drop-lt, Option-cases, inl, inr,
}
use tcpserver_cpp_libuv_samp.Base.Outcome.{Outcome, ok}
use tcpserver_cpp_libuv_samp.Text.{find}
use tcpserver_cpp_libuv_samp.Text.Split.{find-some, find-none}
use tcpserver_cpp_libuv_samp.World.{
  Client, Uv, World, M, pure, get_client, put_client, set_at, ◌>>=◌, ◌>>◌,
}
use tcpserver_cpp_libuv_samp.Events.{process_line, take_line, drain}
use tcpserver_cpp_libuv_samp.Frame.{Framed-ok}
use tcpserver_cpp_libuv_samp.Frame.Handlers.{process_line-Framed}
use tcpserver_cpp_libuv_samp.Framing.{lines, rest, lines_first, rest_first, lines_none}

abbrev pub buffer : World → ℕ → Bytes
buffer w i = (w.client i).receive_buffer

-- The world with the first `n` bytes of the buffer taken off.
abbrev pub consumed : ℕ → ℕ → World → World
consumed n i w = record w {
  client =
      set_at w.client i
        (record (w.client i) { receive_buffer = drop n (w.client i).receive_buffer });
}

module _ (uv : Uv) where
  -- Each line is taken off the buffer with its end, and handled.
  unfoldable pub deliver : ℕ → List Bytes → M (Unit {0})
  deliver i [] = pure tt
  deliver i (l ∷ ls) = do
    c ← get_client i
    put_client i (record c { receive_buffer = drop (suc (length l)) c.receive_buffer })
    process_line uv i l
    deliver i ls

  -- What a handled line leaves: the connection, and the bytes behind the line.
  after_line :
      (i k : ℕ) (l : Bytes) (w v : World)
      → i < w.next_client
      → process_line uv i l (consumed (suc k) i w) ≡ ok (tt, v)
      → (i < v.next_client) × (buffer v i ≡ drop (suc k) (buffer w i))
  after_line i k l w v lt e =
      let step = Framed-ok _ (process_line-Framed uv i l) (consumed (suc k) i w) tt v e in
      (
        omega (arith, step.grows),
        (step.keeps i lt).buffer ∙ ap (λ (c : Client). c.receive_buffer) (set_at_self w.client i _),
      )

  lines-find :
      (k : ℕ) (b : Bytes)
      → find b'\n' b ≡ some k
      → (lines b ≡ take k b ∷ lines (drop (suc k) b)) × (rest b ≡ rest (drop (suc k) b))
  lines-find k b e =
      let hit = find-some b'\n' k b e in
      (
        ap lines hit.0 ∙ lines_first (take k b) (drop (suc k) b) hit.1,
        ap rest hit.0 ∙ rest_first (take k b) (drop (suc k) b) hit.1,
      )

  module _ (i : ℕ) where
    -- With fuel for each byte of the buffer, the loop is the delivery of the buffer's lines.
    pub drain-deliver :
        (f : ℕ) (w : World)
        → i < w.next_client
        → length (buffer w i) ≤ f
        → drain uv f i w ≡ deliver i (lines (buffer w i)) w
    unfolding drain
    drain-deliver zero w lt h = go (buffer w i) h
      where
        go :
            (b : Bytes)
            → length b ≤ 0
            → ◌≡◌ {A = Outcome (Unit {0} × World)} (ok (tt, w)) (deliver i (lines b) w)
        go [] h' = rw ((lines_none [] tt).0) (unfold deliver in refl)
        go (c ∷ s) h' = absurd (omega arith)
    drain-deliver (suc f) w lt h = elim (Option-cases (find b'\n' (buffer w i))) [
      | inl e ↦ rw (e, (lines_none _ (find-none b'\n' (buffer w i) e)).0) (unfold deliver in refl)
      | inr (k, e) ↦
          let b = buffer w i in
          let inside = (find-some b'\n' k b e).2 in
          rw (e, (lines-find k b e).0)
            (bind-cong (process_line uv i (take k b)) _ (λ _. deliver i (lines (drop (suc k) b)))
                (consumed (suc k) i w)
                (λ a v p.
                  let kept = after_line i k (take k b) w v lt p in
                  drain-deliver f v kept.0
                    (omega (arith, ap length kept.1, length-drop-lt k b inside))
                  ∙ ap (λ s. deliver i (lines s) v) kept.1)
              ∙ ap
                  (λ n.
                    (process_line uv i (take k b) >> deliver i (lines (drop (suc k) b)))
                      (consumed (suc n) i w))
                  (sym (length-take k b (omega arith)))
              ∙ (unfold deliver in refl))
    ]

    -- The bytes behind the last end of line stay in the buffer for the next read.
    pub drain-rest :
        (f : ℕ) (w v : World)
        → i < w.next_client
        → length (buffer w i) ≤ f
        → drain uv f i w ≡ ok (tt, v)
        → (buffer v i ≡ rest (buffer w i)) × (i < v.next_client)
    unfolding drain
    drain-rest zero w v lt h e =
        (ap (λ (u : World). buffer u i) (sym same) ∙ go (buffer w i) h, rw (← same) lt)
      where
        same : w ≡ v
        same = cc

        go : (b : Bytes) → length b ≤ 0 → b ≡ rest b
        go [] h' = sym ((lines_none [] tt).1)
        go (c ∷ s) h' = absurd (omega arith)
    drain-rest (suc f) w v lt h e = elim (Option-cases (find b'\n' (buffer w i))) [
      | inl miss ↦
          let same : w ≡ v = stopped miss in
          (
            ap (λ (u : World). buffer u i) (sym same)
                ∙ sym ((lines_none _ (find-none b'\n' (buffer w i) miss)).1),
            rw (← same) lt,
          )
      | inr (k, hit) ↦
          let b = buffer w i in
          let inside = (find-some b'\n' k b hit).2 in
          let (_, u, p, q) =
            bind-ok (process_line uv i (take k b)) (λ _. drain uv f i) (consumed (suc k) i w) tt v
              (went k hit) in
          let kept = after_line i k (take k b) w u lt p in
          let done =
            drain-rest f u v kept.0 (omega (arith, ap length kept.1, length-drop-lt k b inside))
              q in
          (done.0 ∙ ap rest kept.1 ∙ sym ((lines-find k b hit).1), done.1)
    ]
      where
        stopped : find b'\n' (buffer w i) ≡ none → w ≡ v
        stopped miss =
            let e' : ◌≡◌ {A = Outcome (Unit {0} × World)} (ok (tt, w)) (ok (tt, v)) =
              rw (miss, take_line) at e in
            cc

        went :
            (k : ℕ)
            → find b'\n' (buffer w i) ≡ some k
            → (process_line uv i (take k (buffer w i)) >> drain uv f i) (consumed (suc k) i w)
              ≡ ok (tt, v)
        went k hit = rw (hit, take_line) at e
