-- ===== src/Node/Trying.antt =====
-- `tryOutConnections` of node/node.cpp: the counts of the candidates, and a failed connection.
use tcpserver_cpp_libuv_samp.World.Steps.{bind_step, bind-ok}
use tcpserver_cpp_libuv_samp.Base.{
  All, ◌+◌, ◌≡◌, refl, ap, ◌∙◌, true, not, [], ◌∷◌, arith, Bytes, Bool-cases, inl, inr,
  if◌then◌else◌,
}
use mathlib.Core.Path.{subst}
use tcpserver_cpp_libuv_samp.Base.Int.{ℤ, is_zero}
use tcpserver_cpp_libuv_samp.Base.Outcome.{Outcome, ok, fault, Fault}
use tcpserver_cpp_libuv_samp.Dict.{Dict}
use tcpserver_cpp_libuv_samp.World.{
  PeerCandidate, Node, App, server_app, client_app, node_app, Uv, World,
}
use tcpserver_cpp_libuv_samp.Peers.{may_try, is_peer_connected}
use tcpserver_cpp_libuv_samp.Peers.Candidates.{IsBounded}
use tcpserver_cpp_libuv_samp.Frame.{After}
use tcpserver_cpp_libuv_samp.Node.{
  get_node, modify_node, try_out_connection, try_candidate, try_candidates, try_out_connections,
}

-- Where the application is a node, a predicate holds of all entries of its table of candidates.
abbrev pub TableOf : Type 0 → (Bytes × PeerCandidate → Type 0) → App → Type 0
TableOf E Q (server_app s) = E
TableOf E Q client_app = E
TableOf E Q (node_app n) = All Q n.cands

-- The bounds hold of all candidates, where the application is a node.
abbrev pub AppBounded : App → Type 0
AppBounded = TableOf Unit (λ e. IsBounded e.1)

-- A candidate after a trial with this result.
abbrev pub tried : PeerCandidate → ℤ → PeerCandidate
tried c res = record c {
  conn_try_count = c.conn_try_count + 1;
  connected_count = if is_zero res then c.connected_count + 1 else c.connected_count;
}

pub tried-IsBounded :
    (c : PeerCandidate) (res : ℤ) → may_try c ≡ true → IsBounded c → IsBounded (tried c res)
unfolding may_try
tried-IsBounded c res h b = ground arith

pub get_node-node : (w : World) (n : Node) → w.app ≡ node_app n → get_node w ≡ ok (n, w)
get_node-node w n e =
    ap
      (λ (a : App). elim a as (λ x. Outcome (Node × World)) [
        | server_app s ↦ fault Fault.null_pointer
        | client_app ↦ fault Fault.null_pointer
        | node_app k ↦ ok (k, w)
      ])
      e

-- A predicate of the entries that a trial keeps.
module _ (E : Type 0) (Q : Bytes × PeerCandidate → Type 0)
    (trial : (key : Bytes) (c : PeerCandidate) (res : ℤ)
      → may_try c ≡ true
      → Q (key, c)
      → Q (key, tried c res)) where
  own_candidates :
      (a : App) (w u : World) (n : Node)
      → TableOf E Q a
      → get_node (record w { app = a }) ≡ ok (n, u)
      → All Q n.cands
  own_candidates (server_app s) w u n b e = cc
  own_candidates client_app w u n b e = cc
  own_candidates (node_app k) w u n b e =
      let same : k ≡ n = cc in subst (λ (j : Node). All Q j.cands) same b

  new_candidates :
      (a : App) (x v : World) (m : Dict PeerCandidate)
      → All Q m
      → modify_node (λ k. record k { cands = m }) (record x { app = a }) ≡ ok (tt, v)
      → TableOf E Q v.app
  new_candidates (server_app s) x v m b e = cc
  new_candidates client_app x v m b e = cc
  new_candidates (node_app k) x v m b e =
      let same : record x { app = node_app (record k { cands = m }) } ≡ v = cc in
      subst (λ (z : World). TableOf E Q z.app) same b

  module _ (uv : Uv) where
    try_candidate-keeps :
        (key : Bytes) (c c' : PeerCandidate) (w v : World)
        → Q (key, c)
        → try_candidate uv key c w ≡ ok (c', v)
        → Q (key, c')
    unfolding try_candidate
    try_candidate-keeps key c c' w v b h =
        let (n, u, _, q) = bind-ok get_node _ w c' v h in
        let test = not (is_peer_connected u.client key true n.peers) in
        let entry : PeerCandidate → Type 0 = λ d. Q (key, d) in
        elim (Bool-cases (may_try c)) [
          | inl may ↦ elim (Bool-cases test) [
            | inl go ↦
                let (res, x, _, e) =
                  bind-ok (try_out_connection uv c.host c.port) _ u c' v (rw (may, go) at q) in
                let same : tried c res ≡ c' = cc in subst entry same (trial key c res may b)
            | inr stop ↦
                let e : ◌≡◌ {A = Outcome (PeerCandidate × World)} (ok (c, u)) (ok (c', v)) =
                  rw (may, stop) at q in
                let same : c ≡ c' = cc in subst entry same b
          ]
          | inr stop ↦
              let e : ◌≡◌ {A = Outcome (PeerCandidate × World)} (ok (c, u)) (ok (c', v)) =
                rw stop at q in
              let same : c ≡ c' = cc in subst entry same b
        ]

    try_candidates-keeps :
        (m m' : Dict PeerCandidate) (w v : World)
        → All Q m
        → try_candidates uv m w ≡ ok (m', v)
        → All Q m'
    unfolding try_candidates
    try_candidates-keeps [] m' w v b h =
        let same : ◌≡◌ {A = Dict PeerCandidate} [] m' = cc in subst (All Q) same tt
    try_candidates-keeps ((key, c) ∷ rest) m' w v (bc, bs) h =
        let (c', u, p, q) = bind-ok (try_candidate uv key c) _ w m' v h in
        let (rest', x, p', e) = bind-ok (try_candidates uv rest) _ u m' v q in
        let same : (key, c') ∷ rest' ≡ m' = cc in
        subst (All Q) same
          (try_candidate-keeps key c c' w u bc p, try_candidates-keeps rest rest' u x bs p')

    pub try_out_connections-keeps :
        (w : World) → TableOf E Q w.app → After (λ v. TableOf E Q v.app) (try_out_connections uv w)
    unfolding try_out_connections
    try_out_connections-keeps w b = go (try_out_connections uv w) refl
      where
        kept : (v : World) → try_out_connections uv w ≡ ok (tt, v) → TableOf E Q v.app
        kept v h =
            let (n, u, p, q) = bind-ok get_node _ w tt v h in
            let (m, x, p', e) = bind-ok (try_candidates uv n.cands) _ u tt v q in
            new_candidates x.app x v m
              (try_candidates-keeps n.cands m u x (own_candidates w.app w u n b p) p') e

        go :
            (r : Outcome (Unit {0} × World))
            → try_out_connections uv w ≡ r
            → After (λ v. TableOf E Q v.app) r
        go (ok (_, v)) e = kept v e
        go (fault x) e = tt

module _ (uv : Uv) where
  -- `tryOutConnections` keeps the bounds of every candidate: no candidate is tried more often than
  -- it may be, nor counted as connected more often than tried, whatever libuv answers.
  pub try_out_connections-AppBounded :
      (w : World) → AppBounded w.app → After (λ v. AppBounded v.app) (try_out_connections uv w)
  try_out_connections-AppBounded =
      try_out_connections-keeps Unit (λ e. IsBounded e.1) (λ key c res. tried-IsBounded c res) uv

  pub listed_not_tried :
      (key : Bytes) (c : PeerCandidate) (n : Node) (w : World)
      → w.app ≡ node_app n
      → is_peer_connected w.client key true n.peers ≡ true
      → try_candidate uv key c w ≡ ok (c, w)
  unfolding try_candidate
  listed_not_tried key c n w a listed =
      bind_step get_node _ w (get_node-node w n a)
      ∙ elim (Bool-cases (may_try c)) [ inl may ↦ rw (may, listed) | inr stop ↦ rw stop ]
