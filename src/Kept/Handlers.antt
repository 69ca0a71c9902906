-- ===== src/Kept/Handlers.antt =====
-- The message handlers of lib/app.cpp and node/node.cpp, for any predicate with the laws.
use tcpserver_cpp_libuv_samp.Base.{
  ℕ, ◌++◌, List, [], ◌∷◌, Bytes, Option, none, some, codes, bytes_eq, refl,
}
use tcpserver_cpp_libuv_samp.Base.Int.{ℤ}
use tcpserver_cpp_libuv_samp.Text.{to_string}
use tcpserver_cpp_libuv_samp.Dict.{Dict}
use tcpserver_cpp_libuv_samp.Message.{Message}
use tcpserver_cpp_libuv_samp.Endpoint.{Endpoint, parse_endpoint}
use tcpserver_cpp_libuv_samp.World.{Peer, App, server_app, client_app, node_app, Uv, World}
use tcpserver_cpp_libuv_samp.Server.{server_message_received, client_message_received}
use tcpserver_cpp_libuv_samp.Node.{
  collect_peer, collect_peers, send_endpoint, send_endpoints, send_other_peers, set_canonical,
  learn_reported, learn_canonical, handshake_received, node_message_received,
}
use tcpserver_cpp_libuv_samp.Events.{message_received_by, message_received}
use tcpserver_cpp_libuv_samp.Kept.{
  kept, Kept, Laws, bind-Kept, then-Kept, if-Kept, pure-Kept, get_client-Kept, update-Kept,
}

module _ (uv : Uv) {P : World → Type 0} (L : Laws uv P) where
  collect_peer-Kept : (o : Option ℕ) (found : Dict ℕ) → Kept P (collect_peer uv o found)
  unfolding collect_peer
  collect_peer-Kept none found = pure-Kept found
  collect_peer-Kept (some i) found = search (kept, L.checks) depth 8

  collect_peers-Kept : (ps : List Peer) (found : Dict ℕ) → Kept P (collect_peers uv ps found)
  unfolding collect_peers
  collect_peers-Kept [] found = pure-Kept found
  collect_peers-Kept (p ∷ ps) found =
      bind-Kept _ _ (collect_peer-Kept p.client found) (collect_peers-Kept ps)

  send_endpoint-Kept : (i : ℕ) (addr : Bytes) (e : Endpoint) → Kept P (send_endpoint uv i addr e)
  unfolding send_endpoint
  send_endpoint-Kept i addr e = search (kept, L.sends)

  send_endpoints-Kept : (i : ℕ) (m : Dict ℕ) → Kept P (send_endpoints uv i m)
  unfolding send_endpoints
  send_endpoints-Kept i [] = pure-Kept tt
  send_endpoints-Kept i ((key, one) ∷ rest) = bind-Kept _ _ (L.checks i) λ on.
      bind-Kept _ _ (get_client-Kept i) λ c.
        if-Kept on _ _
          (then-Kept _ _ (send_endpoint-Kept i c.peer_addr (parse_endpoint key))
            (send_endpoints-Kept i rest))
          (pure-Kept tt)

  pub send_other_peers-Kept : (i : ℕ) → Kept P (send_other_peers uv i)
  unfolding send_other_peers
  send_other_peers-Kept i = search (kept, collect_peers-Kept, send_endpoints-Kept) depth 9

  set_canonical-Kept :
      (i : ℕ) (ep host : Bytes) (port : ℤ) → Kept P (set_canonical uv i ep host port)
  unfolding set_canonical
  set_canonical-Kept i ep host port =
      let canon = host ++ (codes ":" ++ to_string port) in
      if-Kept (bytes_eq canon ep) _ _ (pure-Kept tt) (
        update-Kept L i (λ c. record c { canon_peer_addr = canon }) _ (λ c. (refl, refl))
          (λ c. L.learns host port))

  learn_reported-Kept : (i : ℕ) (ep : Bytes) (o : Option ℤ) → Kept P (learn_reported uv i ep o)
  unfolding learn_reported
  learn_reported-Kept i ep none = pure-Kept tt
  learn_reported-Kept i ep (some port) = set_canonical-Kept i ep _ port

  learn_canonical-Kept : (i : ℕ) (ep name : Bytes) → Kept P (learn_canonical uv i ep name)
  unfolding learn_canonical
  learn_canonical-Kept i ep name = search (kept, learn_reported-Kept)

  handshake_received-Kept : (i : ℕ) (v name : Bytes) → Kept P (handshake_received uv i v name)
  unfolding handshake_received
  handshake_received-Kept i v name =
      search (kept, L.closes, L.sends, learn_canonical-Kept, send_other_peers-Kept) depth 12

  node_message-Kept : (i : ℕ) (m : Message) → Kept P (node_message_received uv i m)
  unfolding node_message_received
  node_message-Kept i (Message.handshake v y m) = handshake_received-Kept i v m
  node_message-Kept i (Message.ping t) = search (kept, L.sends)
  node_message-Kept i (Message.other_peer host port) = L.learns host port
  node_message-Kept i other = pure-Kept tt

  server_message-Kept :
      (name : Bytes) (i : ℕ) (m : Message) → Kept P (server_message_received uv name i m)
  unfolding server_message_received
  server_message-Kept name i (Message.handshake v y m) = search (kept, L.closes, L.sends)
  server_message-Kept name i (Message.ping t) = search (L.sends)
  server_message-Kept name i other = search kept

  message_by-Kept : (a : App) (i : ℕ) (m : Message) → Kept P (message_received_by uv a i m)
  unfolding message_received_by client_message_received
  message_by-Kept (server_app s) i m = server_message-Kept s.name i m
  message_by-Kept client_app i m = pure-Kept tt
  message_by-Kept (node_app n) i m = node_message-Kept i m

  pub message_received-Kept : (i : ℕ) (m : Message) → Kept P (message_received uv i m)
  unfolding message_received
  message_received-Kept i m = search (kept, message_by-Kept)
