-- ===== src/Listen/Tries.antt =====
-- The loop of `doListen` (lib/net_handler.cpp) against what libuv answers for one port after another.
use tcpserver_cpp_libuv_samp.Base.{
  ℕ, zero, suc, ◌<◌, ◌≡◌, refl, sym, ◌∙◌, ◌⊎◌, arith, Bool, true, false, Bool-cases, inl, inr, List,
  ◌∷◌, codes,
}
use mathlib.Core.Path.{subst}
use tcpserver_cpp_libuv_samp.Base.Int.{ℤ, pos, negsuc, ◌+ℤ◌, is_zero}
use tcpserver_cpp_libuv_samp.Base.Outcome.{Outcome, ok}
use tcpserver_cpp_libuv_samp.World.Steps.{bind_step}
use tcpserver_cpp_libuv_samp.World.{
  Call, pure, ◌>>◌, uv_tcp_init, uv_tcp_bind, uv_listen, Uv, World,
}
use tcpserver_cpp_libuv_samp.Listen.{do_bind_and_listen, listen_started, listen_from}
use tcpserver_cpp_libuv_samp.Listen.Ports.{
  Returns, Returns-bind, Returns-map, After-Returns, next_port, same_port,
}
use tcpserver_cpp_libuv_samp.Listen.Named.{Extends, IsNamed, Started, listen_started-Started}

-- The calls of one try, newest first: up to the bind, and up to the listen.
abbrev pub bind_calls : ℕ → ℤ → List Call → List Call
bind_calls server port t = uv_tcp_bind server (codes "0.0.0.0") port ∷ uv_tcp_init server ∷ t

abbrev pub listen_calls : ℕ → ℤ → List Call → List Call
listen_calls server port t = uv_listen server 10 ∷ bind_calls server port t

module _ (uv : Uv) where
  -- What libuv answers to a try.
  abbrev pub binds : ℕ → ℤ → List Call → Bool
  binds server port t =
      is_zero (uv.result (uv_tcp_init server ∷ t) (uv_tcp_bind server (codes "0.0.0.0") port))

  abbrev pub listens : ℕ → ℤ → List Call → Bool
  listens server port t = is_zero (uv.result (bind_calls server port t) (uv_listen server 10))

  -- A number of tries, from a port on, that libuv refuses, each with a new handle: the numbers of the
  -- next handle and the calls, before and behind them.
  pub data Refused : ℤ → ℕ → ℕ → List Call → ℕ → List Call → Type 0 where
    no_try : {port : ℤ} {h : ℕ} {t : List Call} → Refused port 0 h t h t
    no_bind :
        {port : ℤ} {k h g : ℕ} {t u : List Call}
        → binds h port t ≡ false
        → Refused (port +ℤ pos 1) k (suc h) (bind_calls h port t) g u
        → Refused port (suc k) h t g u
    no_listen :
        {port : ℤ} {k h g : ℕ} {t u : List Call}
        → binds h port t ≡ true
        → listens h port t ≡ false
        → Refused (port +ℤ pos 1) k (suc h) (listen_calls h port t) g u
        → Refused port (suc k) h t g u

  -- All tries are refused.
  abbrev pub GivesUp : ℕ → ℤ → ℕ → List Call → ℤ → World → Type 0
  GivesUp n port h t p v = (p ≡ negsuc 0) × Refused port n h t v.next_handle v.trace

  -- The first try that is not refused, with its handle and the calls before it.
  pub record Listens (n : ℕ) (port : ℤ) (h : ℕ) (t : List Call) (p : ℤ) (v : World) : Type 0 where
    pub tries : ℕ
    pub in_range : tries < n
    pub in_order : p ≡ port +ℤ pos tries
    pub server : ℕ
    pub before : List Call
    pub refused : Refused port tries h t server before
    pub bound : binds server p before ≡ true
    pub listening : listens server p before ≡ true
    pub behind : Extends (listen_calls server p before) v.trace
    pub named : IsNamed p v.app

  abbrev pub Listened : ℕ → ℤ → ℕ → List Call → ℤ → World → Type 0
  Listened n port h t p v = GivesUp n port h t p v ⊎ Listens n port h t p v

  -- One more refused try before the others.
  later_try :
      (n : ℕ) (port : ℤ) (h g : ℕ) (t u : List Call) (p : ℤ) (v : World)
      → ((k e : ℕ) (s : List Call)
          → Refused (port +ℤ pos 1) k g u e s
          → Refused port (suc k) h t e s)
      → Listened n (port +ℤ pos 1) g u p v
      → Listened (suc n) port h t p v
  later_try n port h g t u p v more (inl (e, r)) = inl (e, more n v.next_handle v.trace r)
  later_try n port h g t u p v more (inr l) = inr record {
    tries = suc l.tries;
    in_range = omega (arith, l.in_range);
    in_order = l.in_order ∙ next_port port l.tries;
    server = l.server;
    before = l.before;
    refused = more l.tries l.server l.before l.refused;
    bound = l.bound;
    listening = l.listening;
    behind = l.behind;
    named = l.named;
  }

  first_try :
      (n : ℕ) (port : ℤ) (h : ℕ) (t : List Call) (v : World)
      → binds h port t ≡ true
      → listens h port t ≡ true
      → Started (listen_calls h port t) port v
      → Listened (suc n) port h t port v
  first_try n port h t v b l s = inr record {
    tries = 0;
    in_range = omega arith;
    in_order = same_port port;
    server = h;
    before = t;
    refused = no_try;
    bound = b;
    listening = l;
    behind = s.trace;
    named = s.named;
  }

  -- The result of a loop with the rounds left.
  abbrev Tried : ℕ → ℤ → World → Outcome (ℤ × World) → Type 0
  Tried n port w = Returns (Listened n port w.next_handle w.trace)

  module _ (n : ℕ) (port : ℤ) (w : World) where
    abbrev h : ℕ
    h = w.next_handle

    -- The worlds behind a bind, and behind a listen.
    abbrev bound_world : World
    bound_world = record w { next_handle = suc h; trace = bind_calls h port w.trace }

    abbrev listen_world : World
    listen_world = record w { next_handle = suc h; trace = listen_calls h port w.trace }

    not_bound :
        binds h port w.trace ≡ false
        → (res : ℤ) × (is_zero res ≡ false) × (do_bind_and_listen uv port w ≡ ok (res, bound_world))
    unfolding do_bind_and_listen
    not_bound b =
        (uv.result (uv_tcp_init h ∷ w.trace) (uv_tcp_bind h (codes "0.0.0.0") port), b, rw b refl)

    tried_listen :
        binds h port w.trace ≡ true
        → (res : ℤ) × (is_zero res ≡ listens h port w.trace)
          × (do_bind_and_listen uv port w ≡ ok (res, listen_world))
    unfolding do_bind_and_listen
    tried_listen b = (uv.result (bind_calls h port w.trace) (uv_listen h 10), refl, rw b refl)

    -- The rest of the loop behind a try.
    next_try :
        (res : ℤ) (u : World)
        → do_bind_and_listen uv port w ≡ ok (res, u)
        → is_zero res ≡ false
        → listen_from uv (suc n) port w ≡ listen_from uv n (port +ℤ pos 1) u
    unfolding listen_from
    next_try res u e bad = bind_step (do_bind_and_listen uv port) _ w e ∙ rw bad refl

    last_try :
        (res : ℤ) (u : World)
        → do_bind_and_listen uv port w ≡ ok (res, u)
        → is_zero res ≡ true
        → listen_from uv (suc n) port w ≡ (listen_started uv port >> pure port) u
    unfolding listen_from
    last_try res u e good = bind_step (do_bind_and_listen uv port) _ w e ∙ rw good refl

  listen_from-step :
      (n : ℕ) (port : ℤ) (w : World)
      → ((u : World) → Tried n (port +ℤ pos 1) u (listen_from uv n (port +ℤ pos 1) u))
      → Tried (suc n) port w (listen_from uv (suc n) port w)
  listen_from-step n port w rest =
      let h = w.next_handle in
      elim (Bool-cases (binds h port w.trace)) [
        | inl b ↦
            let (res, same, e) = tried_listen n port w b in
            elim (Bool-cases (listens h port w.trace)) [
              | inl l ↦
                  let u = listen_world n port w in
                  subst (Tried (suc n) port w) (sym (last_try n port w res u e (same ∙ l))) (
                    Returns-bind (λ _ v. Started u.trace port v) _ (listen_started uv port) _ u
                      (After-Returns (Started u.trace port) _ (listen_started-Started uv port u))
                      λ _ v s. first_try n port h w.trace v b l s)
              | inr l ↦
                  let u = listen_world n port w in
                  subst (Tried (suc n) port w) (sym (next_try n port w res u e (same ∙ l))) (
                    Returns-map _ _ _ (λ p v. later_try n port h _ _ _ p v λ k x s. no_listen b l)
                      (rest u))
            ]
        | inr b ↦
            let (res, bad, e) = not_bound n port w b in
            let u = bound_world n port w in
            subst (Tried (suc n) port w) (sym (next_try n port w res u e bad))
              (Returns-map _ _ _ (λ p v. later_try n port h _ _ _ p v λ k x s. no_bind b) (rest u))
      ]

  pub listen_from-Listened :
      (n : ℕ) (port : ℤ) (w : World)
      → Returns (Listened n port w.next_handle w.trace) (listen_from uv n port w)
  unfolding listen_from
  listen_from-Listened zero port w = inl (refl, no_try)
  listen_from-Listened (suc n) port w = listen_from-step n port w (listen_from-Listened n _)
