-- ===== src/Examples.antt =====
-- Concrete inputs: a libuv that takes every call, a connection with bytes in its buffer, and the
-- applications around it. The child modules apply the theorems to them.
mod Wire
mod Tables
mod Runs
mod Nodes
mod Sessions
mod Threads
mod Greetings
use tcpserver_cpp_libuv_samp.Base.{ℕ, true, false, List, [], ◌∷◌, some, Bytes, codes}
use tcpserver_cpp_libuv_samp.Base.Int.{ℤ, pos}
use tcpserver_cpp_libuv_samp.World.{
  accepted, client_in, Client, Server, PeerCandidate, Peer, Node, App, server_app, node_app, inet,
  SockAddr, Uv, World,
}
use tcpserver_cpp_libuv_samp.Client.{new_client_in}

abbrev pub far_address : SockAddr
far_address = record { family = inet; ip = some (codes "10.0.0.1"); port_field = 34835 }

abbrev pub quiet_uv : Uv
quiet_uv = record {
  result = λ trace c. pos 0;
  fd = λ trace handle. pos 5;
  peername = λ trace handle. far_address;
}

abbrev pub with_buffer : Bytes → Client
with_buffer b = record (new_client_in 7 (codes "10.0.0.1:34835")) { receive_buffer = b }

abbrev pub world_of : App → Bytes → World
world_of app b = record {
  client = λ i. with_buffer b;
  next_client = 1;
  next_handle = 8;
  app = app;
  trace = [];
}

abbrev pub a_server : Server
a_server = record { name = codes ":5000"; clients = (codes "10.0.0.1:34835", 0) ∷ [] }

abbrev pub local_candidate : PeerCandidate
local_candidate = record {
  host = codes "localhost";
  port = pos 5001;
  to_try = 1;
  conn_try_count = 1;
  connected_count = 0;
}

abbrev pub a_node : Node
a_node = record {
  name = codes ":5000";
  cands = (codes "localhost:5001", local_candidate) ∷ [];
  peers = record { client = some 0; out_flag = true } ∷ [];
}

abbrev pub server_world : Bytes → World
server_world = world_of (server_app a_server)

abbrev pub node_world : Bytes → World
node_world = world_of (node_app a_node)
