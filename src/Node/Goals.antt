-- ===== src/Node/Goals.antt =====
-- What a candidate of node/node.cpp can come to: predicates, and the tests of the code for them.
use tcpserver_cpp_libuv_samp.Base.{
  ℕ, ◌≤◌, ◌++◌, ◌⊎◌, ap, List, IsIn, some, codes, Option-cases, bytes_eq_iff, ◌≡◌, refl, sym, ◌∙◌,
  Bool, true, false, not, ◌||◌, ◌&&◌, [], ◌∷◌, Bytes, All, arith, inl, inr, Bool-cases, bytes_eq,
}
use tcpserver_cpp_libuv_samp.Base.Int.{ℤ}
use tcpserver_cpp_libuv_samp.Text.{to_string}
use tcpserver_cpp_libuv_samp.Dict.{Dict}
use tcpserver_cpp_libuv_samp.World.{Client, Peer, PeerCandidate, Node}
use tcpserver_cpp_libuv_samp.Peers.{candidate_key, may_try, is_peer_at, is_peer_connected}
use tcpserver_cpp_libuv_samp.Node.{is_local_host, is_self}

-- An outgoing peer with an endpoint is in the list.
abbrev pub HasOutgoing : (ℕ → Client) → Bytes → List Peer → Type 0
HasOutgoing f key ps =
    (p : Peer) × (i : ℕ) × IsIn p ps
    × (p.client ≡ some i)
    × (p.out_flag ≡ true)
    × (((f i).peer_addr ≡ key) ⊎ ((f i).canon_peer_addr ≡ key))

abbrev local_hosts : List Bytes
local_hosts = codes "localhost" ∷ codes "127.0.0.1" ∷ codes "::1" ∷ codes "[::1]" ∷ []

-- An endpoint is a local host with the port that a node has its name from.
abbrev pub IsItself : Bytes → Bytes → Type 0
IsItself name key = (host : Bytes) × IsIn host local_hosts × (key ≡ host ++ name)

-- A candidate was tried, and as often as it may be.
abbrev pub IsExhausted : PeerCandidate → Type 0
IsExhausted c = (1 ≤ c.conn_try_count) × (c.to_try ≤ c.conn_try_count)

-- A candidate that needs no further trial.
abbrev pub AreSettled : (ℕ → Client) → Node → Dict PeerCandidate → Type 0
AreSettled f n = All (λ (e : Bytes × PeerCandidate).
    HasOutgoing f e.0 n.peers ⊎ IsExhausted e.1 ⊎ IsItself n.name e.0)

-- The tests of the code for the same, behind the loop.
abbrev pub is_done : (ℕ → Client) → Node → Bytes → PeerCandidate → Bool
is_done f n key c =
    is_peer_connected f key true n.peers || (not (may_try c) || is_self n.name c.host c.port)

abbrev pub AreDone : (ℕ → Client) → Node → Dict PeerCandidate → Type 0
AreDone f n = All (λ (e : Bytes × PeerCandidate). is_done f n e.0 e.1 ≡ true)

-- Of a candidate as it is before the loop: one that may be tried is connected or the node itself.
abbrev pub is_reached : (ℕ → Client) → Node → Bytes → PeerCandidate → Bool
is_reached f n key c =
    not (may_try c) || (is_peer_connected f key true n.peers || is_self n.name c.host c.port)

abbrev pub AreReached : (ℕ → Client) → Node → Dict PeerCandidate → Type 0
AreReached f n = All (λ (e : Bytes × PeerCandidate). is_reached f n e.0 e.1 ≡ true)

is_peer_at-HasOutgoing :
    (f : ℕ → Client) (key : Bytes) (p : Peer) (ps : List Peer)
    → IsIn p ps
    → is_peer_at f key true p ≡ true
    → HasOutgoing f key ps
unfolding is_peer_at
is_peer_at-HasOutgoing f key p ps here h = elim (Option-cases p.client) [
  | inl e ↦ let bad : false ≡ true = rw e at h in cc
  | inr (i, e) ↦
      let both : (p.out_flag
            && (bytes_eq (f i).peer_addr key || bytes_eq (f i).canon_peer_addr key))
          ≡ true =
        rw e at h in
      let flag : p.out_flag ≡ true = ground (arith, both) in
      elim (Bool-cases (bytes_eq (f i).peer_addr key)) [
        | inl same ↦ (p, i, here, e, flag, inl ((bytes_eq_iff (f i).peer_addr key).0 same))
        | inr other ↦
            let canon : bytes_eq (f i).canon_peer_addr key ≡ true = ground (arith, both, other) in
            (p, i, here, e, flag, inr ((bytes_eq_iff (f i).canon_peer_addr key).0 canon))
      ]
]

HasOutgoing-more :
    (f : ℕ → Client) (key : Bytes) (q : Peer) (ps : List Peer)
    → HasOutgoing f key ps
    → HasOutgoing f key (q ∷ ps)
HasOutgoing-more f key q ps (p, i, here, e, flag, a) = (p, i, inr here, e, flag, a)

pub is_peer_connected-HasOutgoing :
    (f : ℕ → Client) (key : Bytes) (ps : List Peer)
    → is_peer_connected f key true ps ≡ true
    → HasOutgoing f key ps
unfolding is_peer_connected
is_peer_connected-HasOutgoing f key [] h = cc
is_peer_connected-HasOutgoing f key (p ∷ ps) h = elim (Bool-cases (is_peer_at f key true p)) [
  | inl e ↦ is_peer_at-HasOutgoing f key p (p ∷ ps) (inl refl) e
  | inr e ↦ HasOutgoing-more f key p ps (is_peer_connected-HasOutgoing f key ps (rw e at h))
]

is_local_host-IsIn : (host : Bytes) → is_local_host host ≡ true → IsIn host local_hosts
unfolding is_local_host
is_local_host-IsIn host h = elim (Bool-cases (bytes_eq host (codes "localhost"))) [
  | inl a ↦ inl (sym ((bytes_eq_iff host (codes "localhost")).0 a))
  | inr no_a ↦ elim (Bool-cases (bytes_eq host (codes "127.0.0.1"))) [
    | inl b ↦ inr (inl (sym ((bytes_eq_iff host (codes "127.0.0.1")).0 b)))
    | inr no_b ↦ elim (Bool-cases (bytes_eq host (codes "::1"))) [
      | inl c ↦ inr (inr (inl (sym ((bytes_eq_iff host (codes "::1")).0 c))))
      | inr no_c ↦
          let d : bytes_eq host (codes "[::1]") ≡ true = ground (arith, h, no_a, no_b, no_c) in
          inr (inr (inr (inl (sym ((bytes_eq_iff host (codes "[::1]")).0 d)))))
    ]
  ]
]

pub is_self-IsItself :
    (name host key : Bytes) (port : ℤ)
    → key ≡ candidate_key host port
    → is_self name host port ≡ true
    → IsItself name key
unfolding is_self
is_self-IsItself name host key port k h =
    let named : bytes_eq (codes ":" ++ to_string port) name ≡ true = ground (arith, h) in
    let near : is_local_host host ≡ true = ground (arith, h) in
    (
      host,
      is_local_host-IsIn host near,
      k ∙ ap (λ x. host ++ x) ((bytes_eq_iff (codes ":" ++ to_string port) name).0 named),
    )

may_try-IsExhausted : (c : PeerCandidate) → may_try c ≡ false → IsExhausted c
unfolding may_try
may_try-IsExhausted c h = (ground (arith, h), ground (arith, h))

pub AreDone-AreSettled :
    (f : ℕ → Client) (n : Node) (m : Dict PeerCandidate)
    → All (λ (e : Bytes × PeerCandidate). e.0 ≡ candidate_key e.1.host e.1.port) m
    → AreDone f n m
    → AreSettled f n m
AreDone-AreSettled f n [] ks h = tt
AreDone-AreSettled f n ((key, c) ∷ m) (k, ks) (h, hs) =
    let rest = AreDone-AreSettled f n m ks hs in
    elim (Bool-cases (is_peer_connected f key true n.peers)) [
      | inl on ↦ (inl (is_peer_connected-HasOutgoing f key n.peers on), rest)
      | inr off ↦ elim (Bool-cases (may_try c)) [
        | inl more ↦
            let own : is_self n.name c.host c.port ≡ true = ground (arith, h, off, more) in
            (inr (inr (is_self-IsItself n.name c.host key c.port k own)), rest)
        | inr spent ↦ (inr (inl (may_try-IsExhausted c spent)), rest)
      ]
    ]
