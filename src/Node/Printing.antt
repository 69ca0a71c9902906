-- ===== src/Node/Printing.antt =====
-- The texts that `debugPrintPeerCands` and `debugPrintPeers` of node/node.cpp write to the standard
-- output.
use tcpserver_cpp_libuv_samp.Base.{
  ℕ, List, [], ◌∷◌, ◌++◌, Option, none, some, Bytes, codes, length, if◌then◌else◌,
}
use tcpserver_cpp_libuv_samp.Base.Int.{pos}
use tcpserver_cpp_libuv_samp.Text.{to_string}
use tcpserver_cpp_libuv_samp.Dict.{Dict}
use tcpserver_cpp_libuv_samp.World.{PeerCandidate, Peer, Uv, M, pure, ◌>>=◌, get_client}
use tcpserver_cpp_libuv_samp.Client.{is_connected}
use tcpserver_cpp_libuv_samp.Node.{get_node}

abbrev print_count : ℕ → Bytes
print_count n = to_string (pos n)

unfoldable pub print_candidate : Bytes → PeerCandidate → Bytes
print_candidate key c =
    codes "["
    ++ (key
        ++ (codes " "
            ++ (print_count c.to_try
                ++ (codes " "
                    ++ (print_count c.conn_try_count
                        ++ (codes ":" ++ (print_count c.connected_count ++ codes "] ")))))))

unfoldable pub print_candidates : Dict PeerCandidate → Bytes
print_candidates [] = []
print_candidates ((key, c) ∷ rest) = print_candidate key c ++ print_candidates rest

unfoldable pub debug_print_peer_cands : Dict PeerCandidate → Bytes
debug_print_peer_cands cands =
    codes "PeerCands: "
    ++ (print_count (length cands) ++ (codes "  " ++ (print_candidates cands ++ codes "\n")))

module _ (uv : Uv) where
  -- An entry; the closing bracket is written for an entry with a connection only.
  unfoldable pub print_peer : Option ℕ → M Bytes
  print_peer none = pure (codes "[n")
  print_peer (some i) = do
    c ← get_client i
    on ← is_connected uv i
    pure (
        codes "["
        ++ (c.peer_addr
            ++ (codes " "
                ++ (c.canon_peer_addr
                    ++ (codes " " ++ ((if on then codes "Y" else codes "N") ++ codes "] "))))))

  unfoldable pub print_peers : List Peer → M Bytes
  print_peers [] = pure []
  print_peers (p ∷ ps) = do first ← print_peer p.client; rest ← print_peers ps; pure (first ++ rest)

  unfoldable pub debug_print_peers : M Bytes
  debug_print_peers = do
    n ← get_node
    text ← print_peers n.peers
    pure (codes "Peers: " ++ (print_count (length n.peers) ++ (codes "  " ++ (text ++ codes "\n"))))
