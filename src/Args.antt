-- ===== src/Args.antt =====
-- `processArgs` of node/main.cpp.
pub mod RoundTrip
pub mod Printing
use tcpserver_cpp_libuv_samp.Base.{
  ℕ, ◌≡◌, refl, List, [], ◌∷◌, ◌++◌, Bytes, codes, bytes_eq, if◌then◌else◌, Bool, true, false,
}
use tcpserver_cpp_libuv_samp.Base.Int.{ℤ, pos}
use tcpserver_cpp_libuv_samp.Base.Outcome.{Outcome, ok, fault, ◌>>=◌}
use tcpserver_cpp_libuv_samp.Text.{stoi}
use tcpserver_cpp_libuv_samp.Listen.{AppParams}

unfoldable pub add_peer_arg : Bytes → AppParams → AppParams
add_peer_arg s p = record p { extra_peers = p.extra_peers ++ (s ∷ []) }

unfoldable pub set_port_arg : Bytes → AppParams → Outcome AppParams
set_port_arg s p = do port ← stoi s; ok (record p { listen_port = port; listen_port_range = pos 1 })

-- The loop over the arguments; the last one can only be an option without its value.
unfoldable pub scan_args : List Bytes → AppParams → Outcome AppParams
scan_args [] p = ok p
scan_args (a ∷ []) p = ok p
scan_args (a ∷ b ∷ rest) p = elim (bytes_eq a (codes "-peer")) [
  | true ↦ scan_args rest (add_peer_arg b p)
  | false ↦ elim (bytes_eq a (codes "-port")) [
    | true ↦ (do q ← set_port_arg b p; scan_args rest q)
    | false ↦ scan_args (b ∷ rest) p
  ]
]

unfoldable pub process_args : AppParams → List Bytes → Outcome AppParams
process_args p args = scan_args args (record p { extra_peers = [] })
