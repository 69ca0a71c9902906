-- ===== src/Session/Closed.antt =====
-- `close` of lib/net_client.cpp on a connection of a client application.
use tcpserver_cpp_libuv_samp.World.Steps.{set_at_self}
use tcpserver_cpp_libuv_samp.Base.{ℕ, ◌≡◌, ap, ◌∙◌, List, ◌∷◌, none, some, if◌then◌else◌}
use tcpserver_cpp_libuv_samp.Base.Outcome.{ok}
use tcpserver_cpp_libuv_samp.World.{closing, Client, Call, uv_is_closing, uv_close, Uv, World}
use tcpserver_cpp_libuv_samp.Client.{close}
use tcpserver_cpp_libuv_samp.Client.Closing.{marked, asked, given_up, close-given_up, told}
use tcpserver_cpp_libuv_samp.Session.{Works, IsAt, Ends}

module _ (uv : Uv) (i h : ℕ) (works : Works uv h) where
  pub close-Ends :
      (c : Client) (t : List Call) (w : World)
      → IsAt i c t w
      → c.stream ≡ some h
      → Ends i
          (close uv i)
          w
          (record c { state = closing; stream = none })
          (uv_close h ∷ uv_is_closing h ∷ t)
  unfolding given_up
  close-Ends c t w s p = (
    asked uv i h (marked uv i w),
    close-given_up uv i w
        ∙ ap (λ o. ok (tt, given_up uv i o (marked uv i w)))
            (ap (λ (b : Client). b.stream) s.client ∙ p)
        ∙ ap (λ b. ok (tt, if b then asked uv i h (marked uv i w) else told uv i h (marked uv i w)))
            (works.stays w.trace),
    record {
      client =
          set_at_self (marked uv i w).client i _
          ∙ ap (λ (b : Client). record b { stream = none }) (set_at_self w.client i _)
          ∙ ap (λ (b : Client). record b { state = closing; stream = none }) s.client;
      app = s.app;
      trace = ap (λ u. uv_close h ∷ uv_is_closing h ∷ u) s.trace;
      known = s.known;
    },
  )
