-- ===== src/Session/Whole.antt =====
-- The whole session of `NetClientOut` (lib/net_client.cpp) with a client application.
use tcpserver_cpp_libuv_samp.Base.{
  ℕ, zero, suc, ◌+◌, ◌<◌, ◌≡◌, refl, sym, ap, ◌∙◌, ◌==◌, ==_iff, true, List, [], ◌∷◌, ◌++◌, Bytes,
  codes, arith, length, All, append-nil, append_assoc, if◌then◌else◌, bytes_eq,
}
use tcpserver_cpp_libuv_samp.Base.Int.{pos, is_zero}
use tcpserver_cpp_libuv_samp.Base.Outcome.{ok}
use tcpserver_cpp_libuv_samp.World.Steps.{bind_step, writes_to}
use tcpserver_cpp_libuv_samp.Text.{to_string}
use tcpserver_cpp_libuv_samp.Message.{Message, serialize}
use tcpserver_cpp_libuv_samp.Message.RoundTrip.{IsSendable}
use tcpserver_cpp_libuv_samp.World.{
  connecting, connected, sending, Client, client_app, Call, uv_write, uv_read_start, uv_close,
  uv_tcp_getpeername, Uv, World, M, get_app, ◌>>=◌, ◌>>◌,
}
use tcpserver_cpp_libuv_samp.App.{get_name}
use tcpserver_cpp_libuv_samp.Remote.{
  HostPort, unknown_address, address_of, remote_address_host_port,
}
use tcpserver_cpp_libuv_samp.Client.{is_shut, send_message}
use tcpserver_cpp_libuv_samp.Client.Closing.{IsGivenUp}
use tcpserver_cpp_libuv_samp.Events.{process_out_in, process, on_connect}
use tcpserver_cpp_libuv_samp.Framing.Stream.{written}
use tcpserver_cpp_libuv_samp.Session.{
  Works, line, rounds, conn, IsAt, Ends, update-Ends, send_message-Ends, process-Ends, app-Ends,
}
use tcpserver_cpp_libuv_samp.Session.Pings.{numbered_ping, pings, session_calls, rounds-IsDone}

-- The handshake of a client application.
abbrev pub hello : Bytes → Message
hello addr = Message.handshake (codes "V01") addr (codes "_NONE_")

-- The connection is made, and then each message is answered.
unfoldable pub session : Uv → ℕ → ℕ → List Message → M (Unit {0})
session uv i h replies = do on_connect uv i h (pos 0); rounds uv i replies

-- What the last call has closed.
abbrev pub IsLastClose : ℕ → List Call → Type 0
IsLastClose h t = (earlier : List Call) × (t ≡ uv_close h ∷ earlier)

module _ (uv : Uv) (i h : ℕ) (works : Works uv h) where
  hello-Ends :
      (base : Client) (t : List Call) (w : World)
      → IsAt i (conn h base connected 0 []) t w
      → Ends i
          (process uv i)
          w
          (conn h base sending 0 [])
          (uv_write h (line (hello base.peer_addr)) ∷ t)
  unfolding process_out_in get_name is_shut
  hello-Ends base t w s = process-Ends uv i h works _ _ _ _ w s refl (
      update-Ends uv i h works (λ c. record c { send_counter = 0 })
        (λ c. get_app >>= λ a.
          send_message uv i (Message.handshake (codes "V01") c.peer_addr (get_name a)))
        w _ _ _ _ s
        λ v r.
          app-Ends uv i h works
            (λ a. send_message uv i (Message.handshake (codes "V01") base.peer_addr (get_name a))) v
            _ _ _ _ r (send_message-Ends uv i h works _ t (hello base.peer_addr) v r refl refl))

  -- The canonical address that `onConnect` gives the connection.
  abbrev known_as : HostPort → Client → Client
  known_as remote c = record c {
    canon_peer_addr =
        if bytes_eq remote.host c.host
        then c.canon_peer_addr
        else remote.host ++ (codes ":" ++ to_string c.port);
  }

  on_connect-Ends :
      (base : Client) (t : List Call) (w : World)
      → IsAt i (conn h base connecting 0 []) t w
      → (remote : HostPort) × Ends i
          (on_connect uv i h (pos 0))
          w
          (conn h (known_as remote base) sending 0 [])
          (uv_write h (line (hello base.peer_addr)) ∷ uv_tcp_getpeername h ∷ t)
  unfolding on_connect remote_address_host_port
  on_connect-Ends base t w s =
      let a = uv.peername (uv_tcp_getpeername h ∷ w.trace) h in
      let remote : HostPort =
        if is_zero (uv.result w.trace (uv_tcp_getpeername h))
        then address_of a.family a
        else unknown_address in
      let asked = record w { trace = uv_tcp_getpeername h ∷ w.trace } in
      (
        remote,
        update-Ends uv i h works (λ c. record (known_as remote c) { state = connected })
            (λ c. process uv i) asked _ _ (uv_tcp_getpeername h ∷ t) _
            (record {
              client = s.client;
              app = s.app;
              trace = ap (◌∷◌ (uv_tcp_getpeername h)) s.trace;
              known = s.known;
            })
            λ v r. hello-Ends (known_as remote base) _ v r,
      )

  writes_to-session_calls :
      (base : Client) (n k : ℕ) (t : List Call)
      → writes_to h (session_calls uv i h works base k n t)
        ≡ writes_to h t ++ written (pings base.peer_addr k n)
  writes_to-session_calls base zero k t = sym (append-nil (writes_to h t))
  writes_to-session_calls base (suc n) k t =
      let p = line (numbered_ping base.peer_addr (k + 1)) in
      let self : (h == h) ≡ true = (==_iff h h).1 refl in
      let more = pings base.peer_addr (k + 1) n in
      writes_to-session_calls base n (k + 1) (uv_write h p ∷ uv_read_start h ∷ t)
      ∙ ap (λ b. (if b then writes_to h t ++ p else writes_to h t) ++ written more) self
      ∙ append_assoc (writes_to h t) p (written more)
      ∙ ap (λ s. writes_to h t ++ s) (append_assoc (serialize _) (b'\n' ∷ []) (written more))

  session_calls-IsLastClose :
      (base : Client) (n k : ℕ) (t : List Call)
      → IsLastClose h (session_calls uv i h works base k n t)
  session_calls-IsLastClose base zero k t = (_, refl)
  session_calls-IsLastClose base (suc n) k t = session_calls-IsLastClose base n (k + 1) _

  writes_to-hello :
      (addr : Bytes) (t : List Call)
      → writes_to h (uv_write h (line (hello addr)) ∷ uv_tcp_getpeername h ∷ t)
        ≡ writes_to h t ++ line (hello addr)
  writes_to-hello addr t =
      let self : (h == h) ≡ true = (==_iff h h).1 refl in
      ap (λ b. if b then writes_to h t ++ line (hello addr) else writes_to h t) self

  -- A `NetClientOut` of a client application is connecting on a handle, and libuv takes its writes,
  -- its reads and its close. The connection is made, and then, one by one, each write ends and one
  -- message comes in, any sendable one; there is one message more than the connection has pings to
  -- send. The session ends without a fault; it writes to the handle a handshake and then the pings
  -- numbered from one up to that number, each on a line of its own and nothing else; its last call
  -- closes the handle; and the connection is given up.
  pub session-pings :
      (base : Client) (replies : List Message) (w : World)
      → w.client i ≡ conn h base connecting 0 []
      → w.app ≡ client_app
      → i < w.next_client
      → length replies ≡ suc base.ping_to_send
      → All IsSendable replies
      → (v : World) × (session uv i h replies w ≡ ok (tt, v))
        × IsGivenUp i v
        × IsLastClose h v.trace
        × (writes_to h v.trace
            ≡ writes_to h w.trace
              ++ written (hello base.peer_addr ∷ pings base.peer_addr 0 base.ping_to_send))
  unfolding session
  session-pings base replies w c a lt many hs =
      let addr = base.peer_addr in
      let n = base.ping_to_send in
      let (remote, (u, p, s)) =
        on_connect-Ends base w.trace w (record { client = c; app = a; trace = refl; known = lt }) in
      let b = known_as remote base in
      let (v, q, (gone, calls)) =
        rounds-IsDone uv i h works b replies n 0 _ u many (omega arith) hs s in
      let t = uv_write h (line (hello addr)) ∷ uv_tcp_getpeername h ∷ w.trace in
      (
        v,
        bind_step (on_connect uv i h (pos 0)) _ w p ∙ q,
        gone,
        rw calls (session_calls-IsLastClose b n 0 t),
        ap (writes_to h) calls
            ∙ writes_to-session_calls b n 0 t
            ∙ ap (λ x. x ++ written (pings addr 0 n)) (writes_to-hello addr w.trace)
            ∙ append_assoc (writes_to h w.trace) (line (hello addr)) (written (pings addr 0 n))
            ∙ ap (λ x. writes_to h w.trace ++ x)
                (append_assoc (serialize (hello addr)) (b'\n' ∷ []) (written (pings addr 0 n))),
      )
