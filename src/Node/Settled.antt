-- ===== src/Node/Settled.antt =====
-- `tryOutConnections` of node/node.cpp: what becomes of the candidates.
use tcpserver_cpp_libuv_samp.Base.{
  ℕ, ◌<◌, ◌≡◌, refl, ◌∙◌, Bool, true, false, not, ◌||◌, ◌&&◌, [], ◌∷◌, Bytes, All, arith, inl, inr,
  Bool-cases, bytes_eq,
}
use tcpserver_cpp_libuv_samp.Base.Int.{ℤ, pos}
use tcpserver_cpp_libuv_samp.Base.Outcome.{ok}
use tcpserver_cpp_libuv_samp.Dict.{Dict}
use tcpserver_cpp_libuv_samp.World.Steps.{bind_step}
use tcpserver_cpp_libuv_samp.World.{Client, PeerCandidate, Node, Uv, World}
use tcpserver_cpp_libuv_samp.Peers.{candidate_key, may_try, is_peer_connected}
use tcpserver_cpp_libuv_samp.Node.{
  get_node, is_self, try_out_connection, try_candidate, try_candidates,
}
use tcpserver_cpp_libuv_samp.Node.Trying.{get_node-node, tried}
use tcpserver_cpp_libuv_samp.Node.Dialled.{
  SameAddresses, AreMade, is_peer_connected-same, HasNode, Grown, Grown-refl, Grown-trans,
  Grown-connected, with_peer, dial_world, dial_result, self_not_dialled, other_dialled,
  dial-HasNode, dial-Grown, dial-connected,
}
use tcpserver_cpp_libuv_samp.Node.Goals.{AreDone, is_done, AreReached, is_reached}

abbrev pub has_key : Bytes → Dict PeerCandidate → Bool
has_key k [] = false
has_key k ((key, c) ∷ m) = bytes_eq key k || has_key k m

-- Every candidate stands under its endpoint.
abbrev pub AreKeyed : Dict PeerCandidate → Type 0
AreKeyed = All (λ (e : Bytes × PeerCandidate). e.0 ≡ candidate_key e.1.host e.1.port)

-- A candidate after some trials.
abbrev pub SameEndpoint : PeerCandidate → PeerCandidate → Type 0
SameEndpoint c d = (d.host ≡ c.host) × (d.port ≡ c.port)

Grown-done :
    (w v : World) (n m : Node) (key : Bytes) (c : PeerCandidate)
    → HasNode n w
    → Grown w v n m
    → is_done w.client n key c ≡ true
    → is_done v.client m key c ≡ true
Grown-done w v n m key c s g h = elim (Bool-cases (is_peer_connected w.client key true n.peers)) [
  | inl on ↦ rw (Grown-connected w v n m key s g on) refl
  | inr off ↦ rw g.name (let rest = rw off at h in ground (arith, rest))
]

Grown-reached :
    (w v : World) (n m : Node) (key : Bytes) (c : PeerCandidate)
    → HasNode n w
    → Grown w v n m
    → is_reached w.client n key c ≡ true
    → is_reached v.client m key c ≡ true
Grown-reached w v n m key c s g h =
    elim (Bool-cases (is_peer_connected w.client key true n.peers)) [
      | inl on ↦ let still = Grown-connected w v n m key s g on in ground (arith, still)
      | inr off ↦ rw g.name (ground (arith, h, off))
    ]

pub AreDone-same :
    (f g : ℕ → Client) (next : ℕ) (n : Node) (m : Dict PeerCandidate)
    → ((j : ℕ) → j < next → SameAddresses (f j) (g j))
    → AreMade next n.peers
    → AreDone f n m
    → AreDone g n m
AreDone-same f g next n [] same made h = tt
AreDone-same f g next n ((key, c) ∷ m) same made (h, hs) = (
  rw (is_peer_connected-same f g next key n.peers same made) h,
  AreDone-same f g next n m same made hs,
)

pub AreReached-same :
    (f g : ℕ → Client) (next : ℕ) (n : Node) (m : Dict PeerCandidate)
    → ((j : ℕ) → j < next → SameAddresses (f j) (g j))
    → AreMade next n.peers
    → AreReached f n m
    → AreReached g n m
AreReached-same f g next n [] same made h = tt
AreReached-same f g next n ((key, c) ∷ m) same made (h, hs) = (
  rw (is_peer_connected-same f g next key n.peers same made) h,
  AreReached-same f g next n m same made hs,
)

-- A round of the loop: it ends without a fault.
record Tried (uv : Uv) (key : Bytes) (c : PeerCandidate) (w : World) (n : Node) : Type 0 where
  result : PeerCandidate
  after : World
  node : Node
  runs : try_candidate uv key c w ≡ ok (result, after)
  stands : HasNode node after
  grown : Grown w after n node
  same_host : result.host ≡ c.host
  same_port : result.port ≡ c.port
  done : is_done after.client node key result ≡ true
  reached : is_reached after.client node key c ≡ true

module _ (uv : Uv) where
  pub run-tried :
      (key : Bytes) (c : PeerCandidate) (w v : World) (n : Node) (res : ℤ)
      → HasNode n w
      → (may_try c && not (is_peer_connected w.client key true n.peers)) ≡ true
      → try_out_connection uv c.host c.port w ≡ ok (res, v)
      → try_candidate uv key c w ≡ ok (tried c res, v)
  unfolding try_candidate
  run-tried key c w v n res s go e =
      bind_step get_node _ w (get_node-node w n s.app)
      ∙ rw go (bind_step (try_out_connection uv c.host c.port) _ w e)

  try_candidate-Tried :
      (key : Bytes) (c : PeerCandidate) (w : World) (n : Node)
      → HasNode n w
      → key ≡ candidate_key c.host c.port
      → Tried uv key c w n
  unfolding try_candidate
  try_candidate-Tried key c w n s k =
      let found = get_node-node w n s.app in
      elim (Bool-cases (may_try c && not (is_peer_connected w.client key true n.peers))) [
        | inl go ↦ elim (Bool-cases (is_self n.name c.host c.port)) [
          | inl own ↦ record {
            result = tried c (pos 0);
            after = w;
            node = n;
            runs = run-tried key c w w n (pos 0) s go (self_not_dialled uv c.host c.port n w s own);
            stands = s;
            grown = Grown-refl w n;
            same_host = refl;
            same_port = refl;
            done = ground (arith, own);
            reached = ground (arith, own);
          }
          | inr other ↦ record {
            result = tried c (dial_result uv c.host c.port n w s);
            after = dial_world uv c.host c.port n w s;
            node = with_peer uv c.host c.port n w s;
            runs = run-tried key c w _ n _ s go (other_dialled uv c.host c.port n w s other);
            stands = dial-HasNode uv c.host c.port n w s;
            grown = dial-Grown uv c.host c.port n w s;
            same_host = refl;
            same_port = refl;
            done = rw (k, dial-connected uv c.host c.port n w s) refl;
            reached = rw (k, dial-connected uv c.host c.port n w s) (ground arith);
          }
        ]
        | inr stop ↦ record {
          result = c;
          after = w;
          node = n;
          runs = bind_step get_node _ w found ∙ rw stop refl;
          stands = s;
          grown = Grown-refl w n;
          same_host = refl;
          same_port = refl;
          done = ground (arith, stop);
          reached = ground (arith, stop);
        }
      ]

  -- The loop over the candidates.
  pub record Round (m : Dict PeerCandidate) (w : World) (n : Node) : Type 0 where
    pub table : Dict PeerCandidate
    pub after : World
    pub node : Node
    pub runs : try_candidates uv m w ≡ ok (table, after)
    pub stands : HasNode node after
    pub grown : Grown w after n node
    pub keyed : AreKeyed table
    pub same_keys : (k : Bytes) → has_key k table ≡ has_key k m
    pub done : AreDone after.client node table
    pub reached : AreReached after.client node m

  pub try_candidates-Round :
      (m : Dict PeerCandidate) (w : World) (n : Node) → HasNode n w → AreKeyed m → Round m w n
  unfolding try_candidates
  try_candidates-Round [] w n s k = record {
    table = [];
    after = w;
    node = n;
    runs = refl;
    stands = s;
    grown = Grown-refl w n;
    keyed = tt;
    same_keys = λ j. refl;
    done = tt;
    reached = tt;
  }
  try_candidates-Round ((key, c) ∷ m) w n s (k, ks) =
      let t = try_candidate-Tried key c w n s k in
      let r = try_candidates-Round m t.after t.node t.stands ks in
      record {
        table = (key, t.result) ∷ r.table;
        after = r.after;
        node = r.node;
        runs =
            bind_step (try_candidate uv key c) _ w t.runs
            ∙ bind_step (try_candidates uv m) _ t.after r.runs;
        stands = r.stands;
        grown = Grown-trans t.grown r.grown;
        keyed = (rw (t.same_host, t.same_port) k, r.keyed);
        same_keys = λ j. rw (r.same_keys j) refl;
        done =
            (Grown-done t.after r.after t.node r.node key t.result t.stands r.grown t.done, r.done);
        reached = (
          Grown-reached t.after r.after t.node r.node key c t.stands r.grown t.reached,
          r.reached,
        );
      }
