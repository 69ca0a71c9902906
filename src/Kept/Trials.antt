-- ===== src/Kept/Trials.antt =====
-- `tryOutConnections` of node/node.cpp, for a steady predicate that new outgoing peers keep.
use tcpserver_cpp_libuv_samp.Base.{ℕ, suc, refl, [], ◌∷◌, Bytes, true, some}
use tcpserver_cpp_libuv_samp.Base.Int.{ℤ, pos, negsuc}
use tcpserver_cpp_libuv_samp.Dict.{Dict}
use tcpserver_cpp_libuv_samp.World.{
  connecting, PeerCandidate, Node, App, server_app, client_app, node_app, uv_tcp_init,
  uv_tcp_connect, Uv, World, set_at, get_client, put_client, call, new_client, ◌>>=◌, ◌>>◌,
}
use tcpserver_cpp_libuv_samp.Peers.{add_out_peer_candidate}
use tcpserver_cpp_libuv_samp.Client.{new_peer_client_out, connect, is_in_use}
use tcpserver_cpp_libuv_samp.Node.{
  modify_node, is_self, push_peer, try_out_connection, try_candidate, try_candidates,
  try_out_connections, learn_candidate,
}
use tcpserver_cpp_libuv_samp.Frame.{After}
use tcpserver_cpp_libuv_samp.Kept.{
  kept, Kept, Laws, bind-Kept, then-Kept, if-Kept, pure-Kept, get_client-Kept, get_node-Kept,
}
use tcpserver_cpp_libuv_samp.Kept.Steady.{
  Steady, write-Kept, any_handle-Kept, any_call-Kept, steady_laws,
}

-- The world in which a node has a new outgoing peer, before it connects.
abbrev pub dialled : Bytes → ℤ → Node → World → World
dialled host port n w = record w {
  client = set_at w.client w.next_client (new_peer_client_out host port);
  next_client = suc w.next_client;
  app = node_app (push_peer (some w.next_client) true n);
}

pub record Trials (P : World → Type 0) : Type 0 where
  pub steady : Steady P
  pub dials :
      (host : Bytes) (port : ℤ) (n : Node) (w : World)
      → P (record w { app = node_app n })
      → P (dialled host port n w)
  pub tables :
      (n : Node) (m : Dict PeerCandidate) (w : World)
      → P (record w { app = node_app n })
      → P (record w { app = node_app (record n { cands = m }) })

module _ (uv : Uv) {P : World → Type 0} (T : Trials P) where
  pub connect-Kept : (i : ℕ) → Kept P (connect uv i)
  unfolding connect
  connect-Kept i = bind-Kept _ _ (get_client-Kept i) λ c.
      if-Kept (is_in_use c.state) _ _ (pure-Kept (negsuc 0)) (
        bind-Kept _ _ (any_handle-Kept T.steady) λ handle.
          bind-Kept
            (get_client i >>= λ d.
              put_client i
                (record d { state = connecting; send_counter = 0; stream = some handle }))
            (λ _.
              call uv (uv_tcp_init handle) >>= λ _. call uv (uv_tcp_connect handle c.host c.port))
            (record {
              at =
                  write-Kept T.steady i
                    (λ d. record d { state = connecting; send_counter = 0; stream = some handle })
                    (λ d. refl);
            })
            λ _. search (kept, any_call-Kept T.steady))

  dial-of :
      (host : Bytes) (port : ℤ) (w : World) (a : App)
      → P (record w { app = a })
      → After P (
          (new_client (new_peer_client_out host port) >>= λ i.
          modify_node (push_peer (some i) true) >> connect uv i)
            (record w { app = a }))
  dial-of host port w (server_app s) p = tt
  dial-of host port w client_app p = tt
  dial-of host port w (node_app n) p =
      (connect-Kept w.next_client).at (dialled host port n w) (T.dials host port n w p)

  try_out_connection-Kept : (host : Bytes) (port : ℤ) → Kept P (try_out_connection uv host port)
  unfolding try_out_connection
  try_out_connection-Kept host port = bind-Kept _ _ get_node-Kept λ n.
      if-Kept (is_self n.name host port) _ _ (pure-Kept (pos 0))
        (record { at = λ w p. dial-of host port w w.app p })

  try_candidate-Kept : (key : Bytes) (c : PeerCandidate) → Kept P (try_candidate uv key c)
  unfolding try_candidate
  try_candidate-Kept key c = search (kept, try_out_connection-Kept) depth 9

  try_candidates-Kept : (m : Dict PeerCandidate) → Kept P (try_candidates uv m)
  unfolding try_candidates
  try_candidates-Kept [] = pure-Kept []
  try_candidates-Kept ((key, c) ∷ rest) =
      bind-Kept _ _ (try_candidate-Kept key c)
        λ c'. bind-Kept _ _ (try_candidates-Kept rest) λ rest'. pure-Kept ((key, c') ∷ rest')

  table-of :
      (f : Dict PeerCandidate → Dict PeerCandidate) (w : World) (a : App)
      → P (record w { app = a })
      → After P (modify_node (λ n. record n { cands = f n.cands }) (record w { app = a }))
  table-of f w (server_app s) p = tt
  table-of f w client_app p = tt
  table-of f w (node_app n) p = T.tables n (f n.cands) w p

  pub table-Kept :
      (f : Dict PeerCandidate → Dict PeerCandidate)
      → Kept P (modify_node (λ n. record n { cands = f n.cands }))
  table-Kept f = record { at = λ w p. table-of f w w.app p }

  pub try_out_connections-Kept : Kept P (try_out_connections uv)
  unfolding try_out_connections
  try_out_connections-Kept =
      bind-Kept _ _ get_node-Kept
        λ n. bind-Kept _ _ (try_candidates-Kept n.cands) λ cands. table-Kept (λ _. cands)

  learn_candidate-Kept : (host : Bytes) (port : ℤ) → Kept P (learn_candidate uv host port)
  unfolding learn_candidate
  learn_candidate-Kept host port =
      then-Kept _ _ (table-Kept (add_out_peer_candidate host port 1)) try_out_connections-Kept

  pub trial_laws : Laws uv P
  trial_laws = steady_laws uv T.steady learn_candidate-Kept
