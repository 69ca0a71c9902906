-- ===== src/Args/RoundTrip.antt =====
-- `processArgs` of node/main.cpp on a command line that is written from options.
use tcpserver_cpp_libuv_samp.Base.{
  ◌≡◌, ◌≢◌, refl, ◌∙◌, false, List, [], ◌∷◌, ◌++◌, Bytes, codes, bytes_eq, bytes_eq_iff, All,
  Bool-cases, inl, inr,
}
use tcpserver_cpp_libuv_samp.Base.Int.{ℤ, pos, IsInt}
use tcpserver_cpp_libuv_samp.Base.Outcome.{ok}
use tcpserver_cpp_libuv_samp.Text.{to_string}
use tcpserver_cpp_libuv_samp.Text.Decimal.{stoi_whole}
use tcpserver_cpp_libuv_samp.Listen.{AppParams}
use tcpserver_cpp_libuv_samp.Args.{add_peer_arg, set_port_arg, scan_args, process_args}

-- The options of the node's command line.
pub data ArgOption : Type 0 where
  peer : Bytes → ArgOption
  port : ℤ → ArgOption

abbrev pub rendered : List ArgOption → List Bytes
rendered [] = []
rendered (peer s ∷ os) = codes "-peer" ∷ s ∷ rendered os
rendered (port z ∷ os) = codes "-port" ∷ to_string z ∷ rendered os

abbrev pub applied : List ArgOption → AppParams → AppParams
applied [] p = p
applied (peer s ∷ os) p = applied os (record p { extra_peers = p.extra_peers ++ (s ∷ []) })
applied (port z ∷ os) p = applied os (record p { listen_port = z; listen_port_range = pos 1 })

abbrev pub IsReadable : ArgOption → Type 0
IsReadable (peer s) = Unit
IsReadable (port z) = IsInt z

scan_args-rendered :
    (os : List ArgOption) (p : AppParams)
    → All IsReadable os
    → scan_args (rendered os) p ≡ ok (applied os p)
unfolding scan_args add_peer_arg set_port_arg bytes_eq
scan_args-rendered [] p h = refl
scan_args-rendered (peer s ∷ os) p (_, h) = scan_args-rendered os _ h
scan_args-rendered (port z ∷ os) p (hz, h) = rw (stoi_whole z hz) (scan_args-rendered os _ h)

bytes_eq-false : (s t : Bytes) → s ≢ t → bytes_eq s t ≡ false
bytes_eq-false s t h = elim (Bool-cases (bytes_eq s t)) [
  | inl e ↦ absurd (h ((bytes_eq_iff s t).0 e))
  | inr e ↦ e
]

scan_args_skip :
    (a b : Bytes) (rest : List Bytes) (p : AppParams)
    → a ≢ codes "-peer"
    → a ≢ codes "-port"
    → scan_args (a ∷ b ∷ rest) p ≡ scan_args (b ∷ rest) p
unfolding scan_args
scan_args_skip a b rest p np nq =
    rw (bytes_eq-false a (codes "-peer") np, bytes_eq-false a (codes "-port") nq, scan_args)

-- The program's name, which is no option, and then options: the parameters start with no extra
-- peer, each peer option appends its text, and each port option sets the port, which must be an
-- `int`, and narrows the range to one. The value of an option is never read as an option.
pub process_args-rendered :
    (program : Bytes) (os : List ArgOption) (p : AppParams)
    → program ≢ codes "-peer"
    → program ≢ codes "-port"
    → All IsReadable os
    → process_args p (program ∷ rendered os) ≡ ok (applied os (record p { extra_peers = [] }))
unfolding process_args
process_args-rendered program [] p np nq h = unfold scan_args in refl
process_args-rendered program (peer s ∷ os) p np nq h =
    scan_args_skip program (codes "-peer") _ _ np nq ∙ scan_args-rendered (peer s ∷ os) _ h
process_args-rendered program (port z ∷ os) p np nq h =
    scan_args_skip program (codes "-port") _ _ np nq ∙ scan_args-rendered (port z ∷ os) _ h
