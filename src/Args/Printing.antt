-- ===== src/Args/Printing.antt =====
-- The texts that `usage` and `printArgs` of node/main.cpp write to the standard output.
use tcpserver_cpp_libuv_samp.Base.{List, [], ◌∷◌, ◌++◌, Bytes, codes, if◌then◌else◌}
use tcpserver_cpp_libuv_samp.Base.Int.{ℤ, pos, negsuc, ◌+ℤ◌, ltb_ℤ}
use tcpserver_cpp_libuv_samp.Text.{to_string}
use tcpserver_cpp_libuv_samp.Listen.{AppParams}

unfoldable pub usage : AppParams → Bytes
usage p =
    codes "TCP LibUV Node\n"
    ++ (codes "Usage:  tcp-libuv-node [options]\n"
        ++ (codes
              "  -peer [endpoint]   Extra PeerBoot peer.  Optional.  Example: -peer localhost:5500\n"
            ++ (codes "  -port [port]       PeerBoot listening port.  0 for default.  Default: "
                ++ (to_string p.listen_port
                    ++ (codes "\nSimple example:\n"
                        ++ codes "  tcp-libuv-node -port 5005 -peer localhost:5000\n\n")))))

-- The loop over the extra peers: each with a blank behind it.
unfoldable pub print_peer_args : List Bytes → Bytes
print_peer_args [] = []
print_peer_args (s ∷ ss) = s ++ (b' ' ∷ print_peer_args ss)

unfoldable pub peers_label : List Bytes → Bytes
peers_label [] = codes "Extra peers:     (none)\n"
peers_label (s ∷ ss) = codes "Extra peers:     "

-- The range of the ports, where there is more than one.
unfoldable pub print_range : ℤ → ℤ → Bytes
print_range port range =
    if ltb_ℤ (pos 1) range
    then codes " ("
      ++ (to_string port ++ (codes " -- " ++ (to_string (port +ℤ range +ℤ negsuc 0) ++ codes ")")))
    else []

-- The `else` covers the label only: the loop and the end of the line behind it are outside of it.
unfoldable pub print_args : AppParams → Bytes
print_args p =
    peers_label p.extra_peers
    ++ (print_peer_args p.extra_peers
        ++ (codes "\nListening port: "
            ++ (to_string p.listen_port
                ++ (print_range p.listen_port p.listen_port_range ++ codes "\n\n"))))
