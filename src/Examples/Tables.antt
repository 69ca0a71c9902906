-- ===== src/Examples/Tables.antt =====
-- The theorems on the node's tables at concrete inputs.
use tcpserver_cpp_libuv_samp.Base.{
  List, ◌∷◌, ◌++◌, ◌+◌, IsIn, Bytes, map, none, true, inl, refl, ◌≡◌, [], some, codes, bytes_eq,
  if◌then◌else◌, arith,
}
use tcpserver_cpp_libuv_samp.Base.Int.{pos}
use tcpserver_cpp_libuv_samp.Dict.{lookup}
use tcpserver_cpp_libuv_samp.Peers.{candidate_key, add_out_peer_candidate, close_peer}
use tcpserver_cpp_libuv_samp.Peers.Candidates.{
  counts_so_far, endpoint_of, AllBounded, lookup-add_out_peer_candidate,
  add_out_peer_candidate-AllBounded,
}
use tcpserver_cpp_libuv_samp.Peers.Closed.{surviving, close_peer-surviving}
use tcpserver_cpp_libuv_samp.Base.Outcome.{ok}
use tcpserver_cpp_libuv_samp.World.{
  PeerCandidate, Call, uv_timer_stop, peer_client_out, node_app, World,
}
use tcpserver_cpp_libuv_samp.App.{connection_closed}
use tcpserver_cpp_libuv_samp.App.Timers.{connection_closed-surviving}
use tcpserver_cpp_libuv_samp.Requests.{
  Memory, UvBuf, WriteRequest, new_write_request, add_all, destroy_request,
}
use tcpserver_cpp_libuv_samp.Requests.Balance.{destroy_request-add_all}
use tcpserver_cpp_libuv_samp.Examples.{quiet_uv, with_buffer, a_node, node_world}

a_node-AllBounded : AllBounded a_node.cands
a_node-AllBounded = (omega arith, tt)

lookup-add_out_peer_candidate_example :
    (d : PeerCandidate) × ((k : Bytes)
      → lookup k (add_out_peer_candidate (codes "localhost") (pos 5001) 3 a_node.cands) ≡ (
          if bytes_eq (candidate_key (codes "localhost") (pos 5001)) k
          then some d
          else lookup k a_node.cands))
    × (d.to_try
        ≡ 3
          + (counts_so_far (lookup (candidate_key (codes "localhost") (pos 5001)) a_node.cands)).0)
    × ((d.conn_try_count, d.connected_count)
        ≡ counts_so_far (lookup (candidate_key (codes "localhost") (pos 5001)) a_node.cands))
    × ((d.host, d.port)
        ≡ endpoint_of
            (codes "localhost")
            (pos 5001)
            (lookup (candidate_key (codes "localhost") (pos 5001)) a_node.cands))
lookup-add_out_peer_candidate_example =
    lookup-add_out_peer_candidate (codes "localhost") (pos 5001) 3 a_node.cands

add_out_peer_candidate-AllBounded_example :
    AllBounded (add_out_peer_candidate (codes "10.0.0.2") (pos 5002) 1 a_node.cands)
add_out_peer_candidate-AllBounded_example =
    add_out_peer_candidate-AllBounded (codes "10.0.0.2") (pos 5002) 1 a_node.cands (omega arith)
      a_node-AllBounded

close_peer-surviving_example :
    close_peer (node_world []).client 0 a_node.peers
    ≡ surviving (node_world []).client 0 a_node.peers
close_peer-surviving_example = close_peer-surviving (node_world []).client 0 a_node.peers

abbrev some_memory : Memory
some_memory = record { next = 5; live = 4 ∷ 2 ∷ [] }

abbrev two_buffers : List Bytes
two_buffers = codes "PING a" ∷ codes "PING b" ∷ []

destroy_request-add_all_example :
    (r : WriteRequest) × (m1 m2 : Memory) × (add_all two_buffers
        (new_write_request 0 2 some_memory).0
        (new_write_request 0 2 some_memory).1
      ≡ some (r, m1))
    × (map (λ (b : UvBuf). b.bytes) r.bufs ≡ two_buffers)
    × (destroy_request r m1 ≡ some m2)
    × (m2.live ≡ some_memory.live)
destroy_request-add_all_example = destroy_request-add_all 0 2 two_buffers some_memory (omega arith)

-- Connection 0 is an outgoing peer with a running timer.
abbrev ticking_world : World
ticking_world = record (node_world []) {
  client = λ i. record (with_buffer []) { kind = peer_client_out; timer = some 9 };
}

connection_closed-surviving_example :
    (v : World) × (connection_closed quiet_uv 0 ticking_world ≡ ok (tt, v))
    × (v.app ≡ node_app (record a_node { peers = surviving ticking_world.client 0 a_node.peers }))
    × ((v.client 0).timer ≡ none)
    × (added : List Call) × (v.trace ≡ added ++ ticking_world.trace)
    × IsIn (uv_timer_stop 9) added
connection_closed-surviving_example =
    connection_closed-surviving quiet_uv 0 a_node ticking_world
      (record { client = some 0; out_flag = true }) 0 9 refl (inl refl) refl refl refl refl
