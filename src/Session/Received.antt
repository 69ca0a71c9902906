-- ===== src/Session/Received.antt =====
-- A line of a message that comes in on a connection of a client application (lib/net_client.cpp,
-- lib/app.cpp).
use tcpserver_cpp_libuv_samp.World.Steps.{set_at_self}
use tcpserver_cpp_libuv_samp.Base.{
  ℕ, suc, ◌≡◌, refl, sym, ap, ◌∙◌, List, [], ◌∷◌, ◌++◌, some, Bytes, length, take, drop, append-nil,
}
use tcpserver_cpp_libuv_samp.Text.Split.{drop-length}
use tcpserver_cpp_libuv_samp.Message.{Message, serialize}
use tcpserver_cpp_libuv_samp.Message.RoundTrip.{IsSendable}
use tcpserver_cpp_libuv_samp.World.{
  receiving, received, Client, Call, Uv, World, set_at, pure, ◌>>◌,
}
use tcpserver_cpp_libuv_samp.Events.{
  append_received, process_received_buffer, handle_parsed, message_received, message_received_by,
}
use tcpserver_cpp_libuv_samp.Framing.Receive.{buffer}
use tcpserver_cpp_libuv_samp.Framing.Stream.{handle_messages, process_received_buffer-written}
use tcpserver_cpp_libuv_samp.Server.{client_message_received}
use tcpserver_cpp_libuv_samp.Session.{Works, line, conn, IsAt, Ends, then-Ends, update-Ends}

take_whole : (s : Bytes) → take (suc (length s)) (s ++ (b'\n' ∷ [])) ≡ s ++ (b'\n' ∷ [])
take_whole [] = refl
take_whole (c ∷ s) = ap (◌∷◌ c) (take_whole s)

module _ (uv : Uv) (i h : ℕ) (works : Works uv h) (base : Client) where
  handle_parsed-Ends :
      (c : Client) (t : List Call) (m : Message) (w : World)
      → IsAt i c t w
      → Ends i (handle_parsed uv i (some m)) w (record c { state = received }) t
  unfolding handle_parsed message_received message_received_by client_message_received
  handle_parsed-Ends c t m w s =
      let v = record w { client = set_at w.client i (record (w.client i) { state = received }) } in
      (
        v,
        rw s.app,
        record {
          client =
              set_at_self w.client i _
              ∙ ap (λ (b : Client). record b { state = received }) s.client;
          app = s.app;
          trace = s.trace;
          known = s.known;
        },
      )

  handle_messages-Ends :
      (k : ℕ) (t : List Call) (m : Message) (w : World)
      → IsAt i (conn h base receiving k (line m)) t w
      → Ends i (handle_messages uv i (m ∷ [])) w (conn h base received k []) t
  unfolding handle_messages
  handle_messages-Ends k t m w s =
      update-Ends uv i h works
        (λ c. record c { receive_buffer = drop (suc (length (serialize m))) c.receive_buffer })
        (λ c. handle_parsed uv i (some m) >> pure tt) w _ _ _ _ s
        λ v r.
          then-Ends uv i h works (handle_parsed uv i (some m)) (pure tt) v _ _ t t
            (handle_parsed-Ends _ t m v (rw (drop-length b'\n' (serialize m) []) at r))
            λ x q. (x, refl, q)

  process_received_buffer-Ends :
      (k : ℕ) (t : List Call) (m : Message) (w : World)
      → IsSendable m
      → IsAt i (conn h base receiving k (line m)) t w
      → Ends i (process_received_buffer uv i) w (conn h base received k []) t
  process_received_buffer-Ends k t m w hm s =
      let (v, e, r) = handle_messages-Ends k t m w s in
      let held : buffer w i ≡ line m = ap (λ (c : Client). c.receive_buffer) s.client in
      (
        v,
        process_received_buffer-written uv i w (m ∷ []) [] s.known (hm, tt) tt
              (held ∙ sym (append-nil (line m)))
            ∙ e,
        r,
      )

  pub append_received-Ends :
      (k : ℕ) (t : List Call) (m : Message) (w : World)
      → IsSendable m
      → IsAt i (conn h base receiving k []) t w
      → Ends i
          (append_received uv i (suc (length (serialize m))) (some (line m)))
          w
          (conn h base received k [])
          t
  unfolding append_received
  append_received-Ends k t m w hm s =
      update-Ends uv i h works
        (λ c. record c {
          receive_buffer = c.receive_buffer ++ take (suc (length (serialize m))) (line m);
        })
        (λ c. process_received_buffer uv i) w _ _ _ _ s
        λ v r. process_received_buffer-Ends k t m v hm (rw (take_whole (serialize m)) at r)
