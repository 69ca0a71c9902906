-- ===== src/Kept/Candidates.antt =====
-- The bounds on the node's candidates (node/node.cpp) over the operations of the connections.
use tcpserver_cpp_libuv_samp.Peers.Candidates.{IsBounded, add_out_peer_candidate-AllBounded}
use tcpserver_cpp_libuv_samp.Node.Trying.{tried-IsBounded}
use tcpserver_cpp_libuv_samp.Kept.Tables.{TableRule}

pub IsBounded-TableRule : TableRule (λ e. IsBounded e.1)
IsBounded-TableRule = record {
  trial = λ key c res. tried-IsBounded c res;
  entry_added = add_out_peer_candidate-AllBounded;
}
