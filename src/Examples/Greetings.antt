-- ===== src/Examples/Greetings.antt =====
-- The theorems on what a node writes to its peers at concrete inputs.
use tcpserver_cpp_libuv_samp.Base.{◌⊎◌}
use tcpserver_cpp_libuv_samp.Base.{
  ◌||◌, bytes_eq, ◌||◌, bytes_eq, Bytes, ◌==◌, ◌≡◌, refl, [], ◌∷◌, some, codes, true, false,
  if◌then◌else◌,
}
use tcpserver_cpp_libuv_samp.Base.Int.{pos}
use tcpserver_cpp_libuv_samp.Base.Outcome.{ok}
use tcpserver_cpp_libuv_samp.World.{connecting, received, Client, Node, node_app, World}
use tcpserver_cpp_libuv_samp.Text.{to_string, decimal, digits}
use tcpserver_cpp_libuv_samp.Message.{Message}
use tcpserver_cpp_libuv_samp.Client.{new_client_in, new_peer_client_out}
use tcpserver_cpp_libuv_samp.Node.{node_message_received}
use tcpserver_cpp_libuv_samp.Peers.{candidate_key}
use tcpserver_cpp_libuv_samp.Node.Goals.{HasOutgoing, IsItself, AreSettled}
use tcpserver_cpp_libuv_samp.Node.Settled.{has_key}
use tcpserver_cpp_libuv_samp.Node.Discovery.{IsInOrder, other_peer-settles}
use tcpserver_cpp_libuv_samp.Examples.{a_node, quiet_uv, world_of}

-- Connection 0 is an outgoing one to port 5001, and connection 1 comes from another node.
abbrev going_out : Client
going_out = record (new_peer_client_out (codes "localhost") (pos 5001)) {
  state = connecting;
  stream = some 7;
}

abbrev from_another : Client
from_another = record (new_client_in 8 (codes "10.0.0.9:4000")) {
  state = received;
  canon_peer_addr = codes "10.0.0.9:5002";
}

abbrev two_peers : Node
two_peers = record {
  name = codes ":5000";
  cands = [];
  peers =
      record { client = some 0; out_flag = true }
      ∷ record { client = some 1; out_flag = false }
      ∷ [];
}

abbrev meeting : World
meeting = record (world_of (node_app two_peers) []) {
  client = λ i. if i == 0 then going_out else from_another;
  next_client = 2;
  next_handle = 9;
}

-- A node with one candidate and no peers.
abbrev alone : Node
alone = record a_node { peers = [] }

alone-IsInOrder : IsInOrder alone (world_of (node_app alone) [])
unfolding to_string decimal digits
alone-IsInOrder = record { app = refl; made = λ p i q e. absurd q; keyed = (refl, tt) }

other_peer-settles_example :
    (v : World) × (m : Node) × (node_message_received quiet_uv 0
        (Message.other_peer (codes "10.0.0.3") (pos 5))
        (world_of (node_app alone) [])
      ≡ ok (tt, v))
    × IsInOrder m v
    × ((k : Bytes)
        → has_key k m.cands
          ≡ (bytes_eq (candidate_key (codes "10.0.0.3") (pos 5)) k || has_key k alone.cands))
    × AreSettled v.client m m.cands
    × (HasOutgoing v.client (candidate_key (codes "10.0.0.3") (pos 5)) m.peers
        ⊎ IsItself m.name (candidate_key (codes "10.0.0.3") (pos 5)))
other_peer-settles_example =
    other_peer-settles quiet_uv 0 (codes "10.0.0.3") (pos 5) alone (world_of (node_app alone) [])
      alone-IsInOrder

-- A node with one incoming connection.
abbrev guest : Client
guest = record (new_client_in 8 (codes "10.0.0.9:4000")) { state = received }

abbrev host_node : Node
host_node = record alone { peers = record { client = some 0; out_flag = false } ∷ [] }

abbrev hosting : World
hosting = record (world_of (node_app host_node) []) { client = λ i. guest }
