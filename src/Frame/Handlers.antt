-- ===== src/Frame/Handlers.antt =====
-- The frame of the message handlers of lib/app.cpp and node/node.cpp.
use tcpserver_cpp_libuv_samp.Base.{
  ℕ, ◌++◌, ◌∷◌, [], List, refl, Option, none, some, Bytes, codes, bytes_eq,
}
use tcpserver_cpp_libuv_samp.Base.Int.{ℤ}
use tcpserver_cpp_libuv_samp.Text.{to_string}
use tcpserver_cpp_libuv_samp.Dict.{Dict}
use tcpserver_cpp_libuv_samp.Message.{Message}
use tcpserver_cpp_libuv_samp.Endpoint.{Endpoint, parse_endpoint}
use tcpserver_cpp_libuv_samp.World.{
  Peer, PeerCandidate, Node, App, server_app, client_app, node_app, Uv, World,
}
use tcpserver_cpp_libuv_samp.Server.{server_message_received, client_message_received}
use tcpserver_cpp_libuv_samp.Node.{
  get_node, modify_node, try_out_connection, try_candidate, try_candidates, try_out_connections,
  collect_peer, collect_peers, send_endpoint, send_endpoints, send_other_peers, learn_candidate,
  set_canonical, learn_reported, learn_canonical, handshake_received, node_message_received,
}
use tcpserver_cpp_libuv_samp.Events.{
  message_received_by, message_received, handle_parsed, process_line,
}
use tcpserver_cpp_libuv_samp.Frame.{
  framed, Framed, Frame, After, table-Frame, bind-Framed, then-Framed, if-Framed, pure-Framed,
  get_client-Framed, update-Framed,
}
use tcpserver_cpp_libuv_samp.Frame.Ops.{
  close-Framed, send_message-Framed, is_connected-Framed, connect-Framed,
}

get_node_of : (w : World) (a : App) → After (Frame w) (get_node (record w { app = a }))
get_node_of w (server_app s) = tt
get_node_of w client_app = tt
get_node_of w (node_app n) = table-Frame w w.next_handle (node_app n) w.trace

pub get_node-Framed : Framed get_node
get_node-Framed = record { at = λ w. get_node_of w w.app }

modify_node_of :
    (f : Node → Node) (w : World) (a : App) → After (Frame w) (modify_node f (record w { app = a }))
modify_node_of f w (server_app s) = tt
modify_node_of f w client_app = tt
modify_node_of f w (node_app n) = table-Frame w w.next_handle (node_app (f n)) w.trace

pub modify_node-Framed : (f : Node → Node) → Framed (modify_node f)
modify_node-Framed f = record { at = λ w. modify_node_of f w w.app }

module _ (uv : Uv) where
  server_message-Framed :
      (name : Bytes) (i : ℕ) (m : Message) → Framed (server_message_received uv name i m)
  unfolding server_message_received
  server_message-Framed name i (Message.handshake v y m) =
      search (framed, close-Framed, send_message-Framed)
  server_message-Framed name i (Message.ping t) = search (send_message-Framed)
  server_message-Framed name i other = search framed

  try_out_connection-Framed : (host : Bytes) (port : ℤ) → Framed (try_out_connection uv host port)
  unfolding try_out_connection
  try_out_connection-Framed host port =
      search (framed, get_node-Framed, modify_node-Framed, connect-Framed) depth 9

  try_candidate-Framed : (key : Bytes) (c : PeerCandidate) → Framed (try_candidate uv key c)
  unfolding try_candidate
  try_candidate-Framed key c = search (framed, get_node-Framed, try_out_connection-Framed) depth 9

  try_candidates-Framed : (m : Dict PeerCandidate) → Framed (try_candidates uv m)
  unfolding try_candidates
  try_candidates-Framed [] = pure-Framed []
  try_candidates-Framed ((key, c) ∷ rest) =
      bind-Framed _ _ (try_candidate-Framed key c)
        λ c'. bind-Framed _ _ (try_candidates-Framed rest) λ rest'. pure-Framed ((key, c') ∷ rest')

  pub try_out_connections-Framed : Framed (try_out_connections uv)
  unfolding try_out_connections
  try_out_connections-Framed =
      search (framed, get_node-Framed, try_candidates-Framed, modify_node-Framed) depth 9

  collect_peer-Framed : (o : Option ℕ) (found : Dict ℕ) → Framed (collect_peer uv o found)
  unfolding collect_peer
  collect_peer-Framed none found = pure-Framed found
  collect_peer-Framed (some i) found = search (framed, is_connected-Framed) depth 8

  collect_peers-Framed : (ps : List Peer) (found : Dict ℕ) → Framed (collect_peers uv ps found)
  unfolding collect_peers
  collect_peers-Framed [] found = pure-Framed found
  collect_peers-Framed (p ∷ ps) found =
      bind-Framed _ _ (collect_peer-Framed p.client found) (collect_peers-Framed ps)

  send_endpoint-Framed : (i : ℕ) (addr : Bytes) (e : Endpoint) → Framed (send_endpoint uv i addr e)
  unfolding send_endpoint
  send_endpoint-Framed i addr e = search (framed, send_message-Framed)

  send_endpoints-Framed : (i : ℕ) (m : Dict ℕ) → Framed (send_endpoints uv i m)
  unfolding send_endpoints
  send_endpoints-Framed i [] = pure-Framed tt
  send_endpoints-Framed i ((key, one) ∷ rest) = bind-Framed _ _ (is_connected-Framed uv i) λ on.
      bind-Framed _ _ (get_client-Framed i) λ c.
        if-Framed on _ _
          (then-Framed _ _ (send_endpoint-Framed i c.peer_addr (parse_endpoint key))
            (send_endpoints-Framed i rest))
          (pure-Framed tt)

  pub send_other_peers-Framed : (i : ℕ) → Framed (send_other_peers uv i)
  unfolding send_other_peers
  send_other_peers-Framed i =
      search (framed, get_node-Framed, collect_peers-Framed, send_endpoints-Framed) depth 9

  learn_candidate-Framed : (host : Bytes) (port : ℤ) → Framed (learn_candidate uv host port)
  unfolding learn_candidate
  learn_candidate-Framed host port = search (framed, modify_node-Framed, try_out_connections-Framed)

  set_canonical-Framed :
      (i : ℕ) (ep host : Bytes) (port : ℤ) → Framed (set_canonical uv i ep host port)
  unfolding set_canonical
  set_canonical-Framed i ep host port =
      let canon = host ++ (codes ":" ++ to_string port) in
      if-Framed (bytes_eq canon ep) _ _ (pure-Framed tt) (
        update-Framed i (λ c. record c { canon_peer_addr = canon }) _
          (λ c. record { buffer = refl; addr = refl; kinds = refl; hosts = refl; ports = refl })
          (λ c. learn_candidate-Framed host port))

  learn_reported-Framed : (i : ℕ) (ep : Bytes) (o : Option ℤ) → Framed (learn_reported uv i ep o)
  unfolding learn_reported
  learn_reported-Framed i ep none = pure-Framed tt
  learn_reported-Framed i ep (some port) = set_canonical-Framed i ep _ port

  learn_canonical-Framed : (i : ℕ) (ep name : Bytes) → Framed (learn_canonical uv i ep name)
  unfolding learn_canonical
  learn_canonical-Framed i ep name = search (framed, learn_reported-Framed)

  handshake_received-Framed : (i : ℕ) (v name : Bytes) → Framed (handshake_received uv i v name)
  unfolding handshake_received
  handshake_received-Framed i v name =
      search
        (
          framed, close-Framed, get_node-Framed, send_message-Framed, learn_canonical-Framed,
          send_other_peers-Framed,
        )
        depth 12

  node_message-Framed : (i : ℕ) (m : Message) → Framed (node_message_received uv i m)
  unfolding node_message_received
  node_message-Framed i (Message.handshake v y m) = handshake_received-Framed i v m
  node_message-Framed i (Message.ping t) = search (framed, get_node-Framed, send_message-Framed)
  node_message-Framed i (Message.other_peer host port) = learn_candidate-Framed host port
  node_message-Framed i (Message.handshake_response v m y) = pure-Framed tt
  node_message-Framed i (Message.ping_response t) = pure-Framed tt

  message_by-Framed : (a : App) (i : ℕ) (m : Message) → Framed (message_received_by uv a i m)
  unfolding message_received_by client_message_received
  message_by-Framed (server_app s) i m = server_message-Framed s.name i m
  message_by-Framed client_app i m = pure-Framed tt
  message_by-Framed (node_app n) i m = node_message-Framed i m

  -- No message handler that ends without a fault changes the identity (class, address and target) or
  -- the received bytes of any connection, whichever the application and the message are.
  pub message_received-Framed : (i : ℕ) (m : Message) → Framed (message_received uv i m)
  unfolding message_received
  message_received-Framed i m = search (framed, message_by-Framed)

  handle_parsed-Framed : (i : ℕ) (o : Option Message) → Framed (handle_parsed uv i o)
  unfolding handle_parsed
  handle_parsed-Framed i none = pure-Framed tt
  handle_parsed-Framed i (some m) = search (framed, message_received-Framed)

  pub process_line-Framed : (i : ℕ) (line : Bytes) → Framed (process_line uv i line)
  unfolding process_line
  process_line-Framed i line = search (framed, handle_parsed-Framed)
