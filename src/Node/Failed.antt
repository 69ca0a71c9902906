-- ===== src/Node/Failed.antt =====
-- A failed connection of the node (`onConnect` of lib/net_client.cpp) and what `tryOutConnections` of
-- node/node.cpp makes of it.
use tcpserver_cpp_libuv_samp.Base.{◌+◌, ◌∷◌, ◌≡◌, refl, ◌∙◌, true, false, Bytes}
use tcpserver_cpp_libuv_samp.Base.Int.{ℤ, is_zero}
use tcpserver_cpp_libuv_samp.Base.Outcome.{ok}
use tcpserver_cpp_libuv_samp.World.{
  PeerCandidate, Node, node_app, uv_tcp_init, uv_tcp_connect, Uv, World, ◌>>=◌, ◌>>◌,
}
use tcpserver_cpp_libuv_samp.World.Steps.{bind_step}
use tcpserver_cpp_libuv_samp.Peers.{candidate_key, may_try, is_peer_connected}
use tcpserver_cpp_libuv_samp.Events.{on_connect}
use tcpserver_cpp_libuv_samp.Node.{is_self, try_candidate}
use tcpserver_cpp_libuv_samp.Node.Trying.{tried, listed_not_tried}
use tcpserver_cpp_libuv_samp.Node.Dialled.{
  HasNode, with_peer, dial_world, dial_result, other_dialled, dial-connected,
}
use tcpserver_cpp_libuv_samp.Node.Settled.{run-tried}

module _ (uv : Uv) where
  failed-not_tried :
      (status : ℤ) (key : Bytes) (c : PeerCandidate) (n : Node) (w v : World)
      → is_zero status ≡ false
      → v.app ≡ node_app n
      → is_peer_connected v.client key true n.peers ≡ true
      → (on_connect uv w.next_client w.next_handle status >> try_candidate uv key c) v ≡ ok (c, v)
  unfolding on_connect
  failed-not_tried status key c n w v bad a listed = rw bad (listed_not_tried uv key c n v a listed)

  -- A candidate that may be tried, stands under its endpoint, is not the node itself and has no
  -- outgoing peer in the list is tried, which makes a connection; this connection fails, and the
  -- candidate is tried again. The second trial does nothing, however many trials the candidate has
  -- left: one trial is counted, and libuv was asked for one connection.
  pub failed_connect_not_retried :
      (status : ℤ) (key : Bytes) (c : PeerCandidate) (n : Node) (w : World)
      → HasNode n w
      → key ≡ candidate_key c.host c.port
      → may_try c ≡ true
      → is_self n.name c.host c.port ≡ false
      → is_peer_connected w.client key true n.peers ≡ false
      → is_zero status ≡ false
      → (c' : PeerCandidate) × (v : World) × ((try_candidate uv key c >>= λ d.
              on_connect uv w.next_client w.next_handle status >> try_candidate uv key d)
            w
          ≡ ok (c', v))
        × (c'.conn_try_count ≡ c.conn_try_count + 1)
        × (c'.to_try ≡ c.to_try)
        × (v.trace
            ≡ uv_tcp_connect w.next_handle c.host c.port ∷ uv_tcp_init w.next_handle ∷ w.trace)
  failed_connect_not_retried status key c n w s k may other unlisted bad =
      let v = dial_world uv c.host c.port n w s in
      let d = tried c (dial_result uv c.host c.port n w s) in
      let listed : is_peer_connected v.client key true (with_peer uv c.host c.port n w s).peers
          ≡ true =
        rw k (dial-connected uv c.host c.port n w s) in
      (
        d,
        v,
        bind_step (try_candidate uv key c) _ w (
              run-tried uv key c w v n _ s (rw (may, unlisted) refl)
                (other_dialled uv c.host c.port n w s other))
            ∙ failed-not_tried status key d (with_peer uv c.host c.port n w s) w v bad refl listed,
        refl,
        refl,
        refl,
      )
