-- ===== src/Greeting/Reply.antt =====
-- What a node does with the handshake of a peer (`messageReceived` of node/node.cpp).
use tcpserver_cpp_libuv_samp.Base.{ℕ, ◌++◌, Bytes, codes}
use tcpserver_cpp_libuv_samp.Base.Int.{ℤ}
use tcpserver_cpp_libuv_samp.Text.{to_string}
use tcpserver_cpp_libuv_samp.Endpoint.{parse_endpoint}
use tcpserver_cpp_libuv_samp.Message.{Message}
use tcpserver_cpp_libuv_samp.World.{Client, Node, node_app, Uv, World, M, set_at, ◌>>◌}
use tcpserver_cpp_libuv_samp.Peers.{candidate_key}
use tcpserver_cpp_libuv_samp.Client.Closing.{sent_world}
use tcpserver_cpp_libuv_samp.Node.{learn_canonical, send_other_peers}
use tcpserver_cpp_libuv_samp.Node.Discovery.{IsSettledBy, knowing}

module _ (uv : Uv) (i h : ℕ) (port : ℤ) (n : Node) (w : World) where
  abbrev pub response : Message
  response = Message.handshake_response (codes "V01") n.name (w.client i).peer_addr

  -- The canonical endpoint: the host of the connection's address and the port that is reported.
  abbrev pub canon_host : Bytes
  canon_host = (parse_endpoint (w.client i).peer_addr).host

  abbrev pub canonical : Bytes
  canonical = candidate_key canon_host port

  -- The worlds behind the response, and behind the note of the canonical endpoint.
  abbrev answered_world : World
  answered_world = sent_world uv i h response w

  abbrev noted : Client
  noted = record (answered_world.client i) { canon_peer_addr = canonical }

  abbrev noted_world : World
  noted_world = record answered_world { client = set_at answered_world.client i noted }

  -- The step from the response to the other peers.
  abbrev rest_of_handshake : M (Unit {0})
  rest_of_handshake =
      learn_canonical uv i (w.client i).peer_addr (codes ":" ++ to_string port)
      >> send_other_peers uv i

  -- The node behind its trials, with the canonical endpoint among its candidates.
  abbrev HasTried : Node → World → Type 0
  HasTried m v =
      let next = knowing uv canon_host port n in
      IsSettledBy uv (record noted_world { app = node_app next }) next m v
