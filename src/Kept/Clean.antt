-- ===== src/Kept/Clean.antt =====
-- Whole runs of a server, a client or a node, and the handles on which they call libuv.
use tcpserver_cpp_libuv_samp.Base.{
  ℕ, suc, ◌≡◌, refl, true, List, [], ◌∷◌, Option, none, some, Bytes, Bool-cases, inl, inr, arith,
  if◌then◌else◌,
}
use tcpserver_cpp_libuv_samp.Base.Int.{ℤ, is_negative}
use tcpserver_cpp_libuv_samp.Dict.{Dict}
use tcpserver_cpp_libuv_samp.World.{
  State, Kind, client_in, client_out, peer_client_out, Client, PeerCandidate, Node, App, server_app,
  client_app, node_app, Call, uv_tcp_init, uv_accept, uv_timer_init, uv_timer_start, uv_timer_stop,
  uv_tcp_getpeername, delete_handle, Uv, World, set_at, pure, ◌>>=◌, ◌>>◌, set_state, clear_timer,
  call, new_client,
}
use tcpserver_cpp_libuv_samp.App.{
  stop_timer, destroy_as, destroy, destroy_all, connection_closed, closed_app, dropped_app,
  in_connection_received, received_app,
}
use tcpserver_cpp_libuv_samp.Client.{
  do_read, on_close, new_client_in, new_client_out, new_peer_client_out,
}
use tcpserver_cpp_libuv_samp.Remote.{remote_address_host_port, remote_address}
use tcpserver_cpp_libuv_samp.Node.{
  modify_node, try_out_connection, try_candidate, try_candidates, try_out_connections,
  learn_candidate,
}
use tcpserver_cpp_libuv_samp.Events.{on_new_connection}
use tcpserver_cpp_libuv_samp.Frame.{After}
use tcpserver_cpp_libuv_samp.Kept.{
  kept, Laws, is_plain, bind-Kept, then-Kept, pure-Kept, get_client-Kept, bind-After,
}
use tcpserver_cpp_libuv_samp.Kept.Streams.{
  IsSafe, IsFree, fewer-IsSafe, set_at-Holds, call-IsSafe, hook-IsSafe, made-IsFree, made-IsSafe,
}
use tcpserver_cpp_libuv_samp.Kept.Safe.{
  Safe, put-IsSafe, app-IsSafe, close-Safe, send_message-Safe, do_read-Safe, is_connected-Safe,
  connect-Safe,
}

set_state-Safe : (i : ℕ) (s : State) → Safe (set_state i s)
set_state-Safe i s = record { at = λ w p. put-IsSafe i _ w (λ h q. q) p }

clear_timer-Safe : (i : ℕ) → Safe (clear_timer i)
clear_timer-Safe i = record { at = λ w p. put-IsSafe i _ w (λ h q. q) p }

-- A new connection object without a handle.
pub new_client-Safe : (c : Client) → c.stream ≡ none → Safe (new_client c)
new_client-Safe c e = record {
  at = λ w s.
      fewer-IsSafe w
        (record w { client = set_at w.client w.next_client c; next_client = suc w.next_client })
        refl (omega arith) (set_at-Holds w w.next_client c (λ h p. cc)) s;
}

stop-Safe : (uv : Uv) (t : ℕ) → Safe (call uv (uv_timer_stop t))
stop-Safe uv t = record { at = λ w s. call-IsSafe (uv_timer_stop t) w (λ h. refl) tt s }

delete-Safe : (uv : Uv) (k : ℕ) → Safe (call uv (delete_handle k))
delete-Safe uv k = record { at = λ w s. call-IsSafe (delete_handle k) w (λ h. refl) tt s }

modify_node-of :
    (f : Node → Node) (w : World) (a : App)
    → IsSafe (record w { app = a })
    → After IsSafe (modify_node f (record w { app = a }))
modify_node-of f w (server_app s) p = tt
modify_node-of f w client_app p = tt
modify_node-of f w (node_app n) p = app-IsSafe (node_app (f n)) (record w { app = node_app n }) p

pub modify_node-Safe : (f : Node → Node) → Safe (modify_node f)
modify_node-Safe f = record { at = λ w p. modify_node-of f w w.app p }

plain-IsSafe :
    (c : Call) (w : World)
    → is_plain c ≡ true
    → IsSafe w
    → IsSafe (record w { trace = c ∷ w.trace })
plain-IsSafe (uv_timer_init h) w p s = call-IsSafe (uv_timer_init h) w (λ k. refl) tt s
plain-IsSafe (uv_timer_start h) w p s = call-IsSafe (uv_timer_start h) w (λ k. refl) tt s
plain-IsSafe (uv_tcp_getpeername h) w p s = call-IsSafe (uv_tcp_getpeername h) w (λ k. refl) tt s
plain-IsSafe _ w p s = cc

module _ (uv : Uv) where
  destroy_as-Safe : (k : Kind) (i : ℕ) (o : Option ℕ) → Safe (destroy_as uv k i o)
  unfolding destroy_as stop_timer
  destroy_as-Safe peer_client_out i none = pure-Kept tt
  destroy_as-Safe peer_client_out i (some t) = search (kept, stop-Safe, clear_timer-Safe)
  destroy_as-Safe client_in i o = pure-Kept tt
  destroy_as-Safe client_out i o = pure-Kept tt

  pub destroy_all-Safe : (js : List ℕ) → Safe (destroy_all uv js)
  unfolding destroy_all destroy
  destroy_all-Safe [] = pure-Kept tt
  destroy_all-Safe (j ∷ js) =
      then-Kept _ _ (bind-Kept _ _ (get_client-Kept j) λ c. destroy_as-Safe c.kind j c.timer)
        (destroy_all-Safe js)

  connection_closed-Safe : (i : ℕ) → Safe (connection_closed uv i)
  unfolding connection_closed
  connection_closed-Safe i = record {
    at = λ w s.
        (destroy_all-Safe (dropped_app w.client i w.app)).at
          (record w { app = closed_app w.client i w.app })
          (app-IsSafe (closed_app w.client i w.app) w s);
  }

  on_close-Safe : (i handle : ℕ) → Safe (on_close uv i handle)
  unfolding on_close
  on_close-Safe i handle = search (kept, connection_closed-Safe, delete-Safe, set_state-Safe)

  new_peer-Safe : (host : Bytes) (port : ℤ) → Safe (new_client (new_peer_client_out host port))
  unfolding new_peer_client_out new_client_out
  new_peer-Safe host port = new_client-Safe _ refl

  try_out_connection-Safe : (host : Bytes) (port : ℤ) → Safe (try_out_connection uv host port)
  unfolding try_out_connection
  try_out_connection-Safe host port =
      search (kept, new_peer-Safe, modify_node-Safe, connect-Safe) depth 9

  try_candidate-Safe : (key : Bytes) (c : PeerCandidate) → Safe (try_candidate uv key c)
  unfolding try_candidate
  try_candidate-Safe key c = search (kept, try_out_connection-Safe) depth 9

  try_candidates-Safe : (m : Dict PeerCandidate) → Safe (try_candidates uv m)
  unfolding try_candidates
  try_candidates-Safe [] = pure-Kept []
  try_candidates-Safe ((key, c) ∷ rest) =
      bind-Kept _ _ (try_candidate-Safe key c)
        λ c'. bind-Kept _ _ (try_candidates-Safe rest) λ rest'. pure-Kept ((key, c') ∷ rest')

  pub try_out_connections-Safe : Safe (try_out_connections uv)
  unfolding try_out_connections
  try_out_connections-Safe = search (kept, try_candidates-Safe, modify_node-Safe) depth 9

  learn_candidate-Safe : (host : Bytes) (port : ℤ) → Safe (learn_candidate uv host port)
  unfolding learn_candidate
  learn_candidate-Safe host port = search (modify_node-Safe, try_out_connections-Safe, kept)

  in_stream : (k : ℕ) (addr : Bytes) → (new_client_in k addr).stream ≡ some k
  unfolding new_client_in
  in_stream k addr = refl

  -- The end of `onNewConnection`: a connection object is made for a free handle.
  taken_in-Safe :
      (k : ℕ) (addr : Bytes) (w : World)
      → IsSafe w
      → IsFree k w
      → After IsSafe
          ((new_client (new_client_in k addr) >>= λ i. in_connection_received i >> do_read uv i) w)
  unfolding in_connection_received
  taken_in-Safe k addr w s f =
      let c = new_client_in k addr in
      let i = w.next_client in
      let u = record w { client = set_at w.client i c } in
      let v = record u { next_client = suc i; app = received_app u.client i w.app } in
      (do_read-Safe uv i).at v (
        fewer-IsSafe u v refl (omega arith) (λ j h p. p)
          (hook-IsSafe i k c w (in_stream k addr) f s))

  remote_address-Safe :
      (k : ℕ) (w : World)
      → IsSafe w
      → IsFree k w
      → After (λ v. IsSafe v × IsFree k v) (remote_address uv k w)
  unfolding remote_address remote_address_host_port
  remote_address-Safe k w s f = (
    call-IsSafe (uv_tcp_getpeername k) w (λ h. refl) tt s,
    record { made = f.made; free = f.free; open_handle = f.open_handle },
  )

  accept_in-Safe :
      (server k : ℕ) (w : World)
      → IsSafe w
      → IsFree k w
      → After IsSafe (
          (call uv (uv_tcp_init k) >>= λ _. call uv (uv_accept server k) >>= λ res.
          if is_negative res
          then pure tt
          else (remote_address uv k >>= λ addr.
              new_client (new_client_in k addr) >>= λ i. in_connection_received i >> do_read uv i))
            w)
  accept_in-Safe server k w s f =
      let u = record w { trace = uv_tcp_init k ∷ w.trace } in
      let v = record u { trace = uv_accept server k ∷ u.trace } in
      let s' =
        call-IsSafe (uv_accept server k) u (λ h. refl) f.open_handle
          (call-IsSafe (uv_tcp_init k) w (λ h. refl) f.open_handle s) in
      let f' : IsFree k v = record { made = f.made; free = f.free; open_handle = f.open_handle } in
      elim (Bool-cases (is_negative (uv.result u.trace (uv_accept server k)))) [
        | inl bad ↦ rw bad s'
        | inr good ↦ rw good (
            bind-After (λ x. IsSafe x × IsFree k x) IsSafe (remote_address uv k) _ v
              (remote_address-Safe k v s' f') (λ addr x (sx, fx). taken_in-Safe k addr x sx fx))
      ]

  on_new_connection-Safe : (server : ℕ) (status : ℤ) → Safe (on_new_connection uv server status)
  unfolding on_new_connection
  on_new_connection-Safe server status = record {
    at = λ w s. elim (Bool-cases (is_negative status)) [
      | inl bad ↦ rw bad s
      | inr good ↦ rw good (
          accept_in-Safe server w.next_handle (record w { next_handle = suc w.next_handle })
            (made-IsSafe w s) (made-IsFree w s))
    ];
  }

  pub stream_laws : Laws uv IsSafe
  stream_laws = record {
    updates =
        λ i f w same s. put-IsSafe i (f (w.client i)) w (λ h p. rw (← (same (w.client i)).0) p) s;
    handles = made-IsSafe;
    calls = plain-IsSafe;
    sends = send_message-Safe uv;
    reads = do_read-Safe uv;
    closes = close-Safe uv;
    ends = on_close-Safe;
    checks = is_connected-Safe uv;
    learns = learn_candidate-Safe;
    accepts = on_new_connection-Safe;
  }
