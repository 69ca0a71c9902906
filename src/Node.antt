-- ===== src/Node.antt =====
-- node/node.cpp: trying connections, passing on the known peers, and the message handler.
pub mod Trying
pub mod Faults
pub mod Printing
pub mod Dialled
pub mod Goals
pub mod Settled
pub mod Failed
pub mod Discovery
use tcpserver_cpp_libuv_samp.Base.{
  ℕ, suc, ◌+◌, Bool, true, false, not, ◌&&◌, ◌||◌, List, [], ◌∷◌, ◌++◌, Option, none, some, Bytes,
  codes, bytes_eq, take, drop, if◌then◌else◌,
}
use tcpserver_cpp_libuv_samp.Base.Int.{ℤ, pos, negsuc, is_zero}
use tcpserver_cpp_libuv_samp.Base.Outcome.{Outcome, ok, fault, Fault}
use tcpserver_cpp_libuv_samp.Text.{to_string, stoi}
use tcpserver_cpp_libuv_samp.Dict.{Dict, insert}
use tcpserver_cpp_libuv_samp.Message.{Message}
use tcpserver_cpp_libuv_samp.Endpoint.{Endpoint, parse_endpoint, get_endpoint}
use tcpserver_cpp_libuv_samp.World.{
  Client, Peer, PeerCandidate, Node, App, server_app, client_app, node_app, Uv, World, M, pure,
  ◌>>=◌, ◌>>◌, fail, lift, get_client, get_table, put_client, get_app, put_app, new_client,
}
use tcpserver_cpp_libuv_samp.Peers.{set_client, add_out_peer_candidate, may_try, is_peer_connected}
use tcpserver_cpp_libuv_samp.Client.{
  new_peer_client_out, close, send_message, is_connected, connect,
}
use tcpserver_cpp_libuv_samp.Server.{ping_answer}

-- The node behind `this`: an application of another class cannot be it.
abbrev pub get_node : M Node
get_node w = elim w.app [
  | server_app s ↦ fault Fault.null_pointer
  | client_app ↦ fault Fault.null_pointer
  | node_app n ↦ ok (n, w)
]

abbrev pub modify_node : (Node → Node) → M (Unit {0})
modify_node f w = elim w.app [
  | server_app s ↦ fault Fault.null_pointer
  | client_app ↦ fault Fault.null_pointer
  | node_app n ↦ ok (tt, record w { app = node_app (f n) })
]

unfoldable pub is_local_host : Bytes → Bool
is_local_host host =
    bytes_eq host (codes "localhost")
    || (bytes_eq host (codes "127.0.0.1")
        || (bytes_eq host (codes "::1") || bytes_eq host (codes "[::1]")))

-- The test that excludes a connection to itself.
unfoldable pub is_self : Bytes → Bytes → ℤ → Bool
is_self name host port = bytes_eq (codes ":" ++ to_string port) name && is_local_host host

unfoldable pub push_peer : Option ℕ → Bool → Node → Node
push_peer client out n = record n {
  peers = n.peers ++ (set_client client (record { client = none; out_flag = out }) ∷ []);
}

module _ (uv : Uv) where
  unfoldable pub try_out_connection : Bytes → ℤ → M ℤ
  try_out_connection host port = do
    n ← get_node
    if is_self n.name host port then pure (pos 0) else do
      i ← new_client (new_peer_client_out host port)
      modify_node (push_peer (some i) true)
      connect uv i

  -- The round of `tryOutConnections` for one candidate.
  unfoldable pub try_candidate : Bytes → PeerCandidate → M PeerCandidate
  try_candidate key c = do
    n ← get_node
    client ← get_table
    if may_try c && not (is_peer_connected client key true n.peers)
        then (do
          res ← try_out_connection c.host c.port
          pure (record c {
            conn_try_count = c.conn_try_count + 1;
            connected_count = if is_zero res then c.connected_count + 1 else c.connected_count;
          }))
        else pure c

  unfoldable pub try_candidates : Dict PeerCandidate → M (Dict PeerCandidate)
  try_candidates [] = pure []
  try_candidates ((key, c) ∷ rest) = do
    c' ← try_candidate key c
    rest' ← try_candidates rest
    pure ((key, c') ∷ rest')

  -- `tryOutConnections`, in the order of the map.
  unfoldable pub try_out_connections : M (Unit {0})
  try_out_connections = do
    n ← get_node
    cands ← try_candidates n.cands
    modify_node (λ m. record m { cands = cands })

  -- The first loop of `getConnectedPeers`.
  unfoldable pub collect_peer : Option ℕ → Dict ℕ → M (Dict ℕ)
  collect_peer none found = pure found
  collect_peer (some i) found = do
    on ← is_connected uv i
    c ← get_client i
    pure (
        if on && not (bytes_eq c.canon_peer_addr [])
        then insert c.canon_peer_addr 1 found
        else found)

  unfoldable pub collect_peers : List Peer → Dict ℕ → M (Dict ℕ)
  unfolding collect_peer
  collect_peers [] found = pure found
  collect_peers (p ∷ ps) found = do found' ← collect_peer p.client found; collect_peers ps found'

  -- A peer is not told of itself.
  unfoldable pub send_endpoint : ℕ → Bytes → Endpoint → M (Unit {0})
  send_endpoint i peer_addr e =
      if bytes_eq (get_endpoint e) peer_addr
      then pure tt
      else send_message uv i (Message.other_peer e.host e.port)

  -- The loop of `sendOtherPeers` over the endpoints of `getConnectedPeers`.
  unfoldable pub send_endpoints : ℕ → Dict ℕ → M (Unit {0})
  send_endpoints i [] = pure tt
  send_endpoints i ((key, one) ∷ rest) = do
    on ← is_connected uv i
    c ← get_client i
    if on
        then (do send_endpoint i c.peer_addr (parse_endpoint key); send_endpoints i rest)
        else pure tt

  unfoldable pub send_other_peers : ℕ → M (Unit {0})
  send_other_peers i = do n ← get_node; found ← collect_peers n.peers []; send_endpoints i found

  unfoldable pub learn_candidate : Bytes → ℤ → M (Unit {0})
  learn_candidate host port = do
    modify_node (λ n. record n { cands = add_out_peer_candidate host port 1 n.cands })
    try_out_connections

  -- The part of the handshake that finds the canonical endpoint of an incoming peer: `none` where
  -- the reported name has no port.
  unfoldable pub reported_port : Bytes → Outcome (Option ℤ)
  reported_port name =
      if bytes_eq (take 1 name) (codes ":")
      then (elim (stoi (drop 1 name)) [ ok p ↦ ok (some p) | fault f ↦ fault f ])
      else ok none

  -- The canonical endpoint of connection `i` is noted, and becomes a candidate, if it is another one.
  unfoldable pub set_canonical : ℕ → Bytes → Bytes → ℤ → M (Unit {0})
  set_canonical i peer_ep canon_host port =
      let canon_ep = canon_host ++ (codes ":" ++ to_string port) in
      if bytes_eq canon_ep peer_ep then pure tt else do
        c ← get_client i
        put_client i (record c { canon_peer_addr = canon_ep })
        learn_candidate canon_host port

  unfoldable pub learn_reported : ℕ → Bytes → Option ℤ → M (Unit {0})
  unfolding set_canonical
  learn_reported i peer_ep none = pure tt
  learn_reported i peer_ep (some port) = set_canonical i peer_ep (parse_endpoint peer_ep).host port

  unfoldable pub learn_canonical : ℕ → Bytes → Bytes → M (Unit {0})
  learn_canonical i peer_ep my_addr = do
    reported ← lift (reported_port my_addr)
    learn_reported i peer_ep reported

  unfoldable pub handshake_received : ℕ → Bytes → Bytes → M (Unit {0})
  handshake_received i version my_addr =
      if not (bytes_eq version (codes "V01")) then close uv i else do
        n ← get_node
        client ← get_table
        if is_peer_connected client (client i).peer_addr false n.peers
            then (do
              send_message uv i
                  (Message.handshake_response (codes "V01") n.name (client i).peer_addr)
              learn_canonical i (client i).peer_addr my_addr
              send_other_peers i)
            else pure tt

  unfoldable pub node_message_received : ℕ → Message → M (Unit {0})
  node_message_received i (Message.handshake version your_addr my_addr) =
      handshake_received i version my_addr
  node_message_received i (Message.ping content) = do
    n ← get_node
    send_message uv i (Message.ping_response (ping_answer n.name content))
  node_message_received i (Message.other_peer host port) = learn_candidate host port
  node_message_received i (Message.handshake_response v m y) = pure tt
  node_message_received i (Message.ping_response content) = pure tt
