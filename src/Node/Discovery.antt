-- ===== src/Node/Discovery.antt =====
-- The `OtherPeer` message of `messageReceived` in node/node.cpp: a node learns of an endpoint.
use tcpserver_cpp_libuv_samp.Base.{
  ℕ, ◌+◌, ◌⊎◌, Option, none, some, true, Bool-cases, ◌≡◌, refl, ◌∙◌, ◌||◌, [], ◌∷◌, Bytes, arith,
  inl, inr, Option-cases, bytes_eq, bytes_eq_iff,
}
use tcpserver_cpp_libuv_samp.Base.Int.{ℤ}
use tcpserver_cpp_libuv_samp.Base.Outcome.{ok}
use tcpserver_cpp_libuv_samp.Dict.{Dict, lookup, insert, insert-All, lookup-All}
use tcpserver_cpp_libuv_samp.Message.{Message}
use tcpserver_cpp_libuv_samp.World.Steps.{bind_step}
use tcpserver_cpp_libuv_samp.World.{Client, PeerCandidate, Node, node_app, Uv, World}
use tcpserver_cpp_libuv_samp.Peers.{
  new_candidate, candidate_key, may_try, is_peer_connected, add_out_peer_candidate,
}
use tcpserver_cpp_libuv_samp.Peers.Candidates.{added, lookup-added}
use tcpserver_cpp_libuv_samp.Node.{
  is_self, get_node, modify_node, try_candidates, try_out_connections, learn_candidate,
  node_message_received,
}
use tcpserver_cpp_libuv_samp.Node.Trying.{get_node-node}
use tcpserver_cpp_libuv_samp.Node.Dialled.{AreMade, Grown}
use tcpserver_cpp_libuv_samp.Node.Goals.{
  HasOutgoing, IsItself, AreSettled, AreDone, AreReached, is_reached, is_peer_connected-HasOutgoing,
  is_self-IsItself, AreDone-AreSettled,
}
use tcpserver_cpp_libuv_samp.Node.Settled.{AreKeyed, has_key, try_candidates-Round}

has_key-insert :
    (key k : Bytes) (c : PeerCandidate) (m : Dict PeerCandidate)
    → has_key k (insert key c m) ≡ (bytes_eq key k || has_key k m)
unfolding insert
has_key-insert key k c [] = refl
has_key-insert key k c ((first, d) ∷ m) = ground (
  arith,
  bytes_eq_iff first key,
  bytes_eq_iff first k,
  bytes_eq_iff key k,
  has_key-insert key k c m,
)

pub has_key-add :
    (host : Bytes) (port : ℤ) (to_try : ℕ) (m : Dict PeerCandidate) (k : Bytes)
    → has_key k (add_out_peer_candidate host port to_try m)
      ≡ (bytes_eq (candidate_key host port) k || has_key k m)
unfolding add_out_peer_candidate
has_key-add host port to_try m k = elim (Option-cases (lookup (candidate_key host port) m)) [
  | inl e ↦ rw (e, add_out_peer_candidate) (has_key-insert (candidate_key host port) k _ m)
  | inr (c, e) ↦ rw (e, add_out_peer_candidate) (has_key-insert (candidate_key host port) k _ m)
]

pub add-AreKeyed :
    (host : Bytes) (port : ℤ) (to_try : ℕ) (m : Dict PeerCandidate)
    → AreKeyed m
    → AreKeyed (add_out_peer_candidate host port to_try m)
unfolding add_out_peer_candidate new_candidate
add-AreKeyed host port to_try m h =
    let key = candidate_key host port in
    let keyed : Bytes × PeerCandidate → Type 0 = λ e. e.0 ≡ candidate_key e.1.host e.1.port in
    elim (Option-cases (lookup key m)) [
      | inl e ↦
          rw (e, add_out_peer_candidate)
            (insert-All keyed key (new_candidate host port to_try) m refl h)
      | inr (c, e) ↦
          rw (e, add_out_peer_candidate)
            (insert-All keyed key (record c { to_try = to_try + c.conn_try_count }) m
              (lookup-All keyed key c m h e) h)
    ]

-- The candidate of an endpoint that is learnt may be tried.
may_try-added :
    (host : Bytes) (port : ℤ) (o : Option PeerCandidate) → may_try (added host port 1 o) ≡ true
unfolding may_try
may_try-added host port none = refl
may_try-added host port (some c) = ground arith

-- The endpoint that is learnt has an outgoing peer behind the trials, or it is the node itself.
pub reached-HasOutgoing :
    (f : ℕ → Client) (m : Node) (host : Bytes) (port : ℤ) (cands : Dict PeerCandidate)
    → AreKeyed cands
    → AreReached f m (add_out_peer_candidate host port 1 cands)
    → HasOutgoing f (candidate_key host port) m.peers ⊎ IsItself m.name (candidate_key host port)
reached-HasOutgoing f m host port cands k h =
    let key = candidate_key host port in
    let d = added host port 1 (lookup key cands) in
    let self : bytes_eq key key ≡ true = (bytes_eq_iff key key).1 refl in
    let found : lookup key (add_out_peer_candidate host port 1 cands) ≡ some d =
      lookup-added host port 1 cands key ∙ rw self refl in
    let may = may_try-added host port (lookup key cands) in
    let reached : is_reached f m key d ≡ true =
      lookup-All (λ (e : Bytes × PeerCandidate). is_reached f m e.0 e.1 ≡ true) key d _ h found in
    let keyed : key ≡ candidate_key d.host d.port =
      lookup-All (λ (e : Bytes × PeerCandidate). e.0 ≡ candidate_key e.1.host e.1.port) key d _
        (add-AreKeyed host port 1 cands k) found in
    elim (Bool-cases (is_peer_connected f key true m.peers)) [
      | inl on ↦ inl (is_peer_connected-HasOutgoing f key m.peers on)
      | inr off ↦
          let own : is_self m.name d.host d.port ≡ true = ground (arith, reached, may, off) in
          inr (is_self-IsItself m.name d.host key d.port keyed own)
    ]

-- A node in good order: its entries refer to connections that were made, and its candidates stand
-- under their endpoints.
pub record IsInOrder (n : Node) (w : World) : Type 0 where
  pub app : w.app ≡ node_app n
  pub made : AreMade w.next_client n.peers
  pub keyed : AreKeyed n.cands

module _ (uv : Uv) where
  -- A node has tried its candidates, from a world with these candidates on.
  pub record IsSettledBy (w : World) (n : Node) (m : Node) (v : World) : Type 0 where
    pub order : IsInOrder m v
    pub grown : Grown w v n m
    pub same_keys : (k : Bytes) → has_key k m.cands ≡ has_key k n.cands
    pub done : AreDone v.client m m.cands
    pub reached : AreReached v.client m n.cands

  try_out-settles :
      (w : World) (n : Node)
      → IsInOrder n w
      → (v : World) × (m : Node) × (try_out_connections uv w ≡ ok (tt, v)) × IsSettledBy w n m v
  unfolding try_out_connections
  try_out-settles w n s =
      let r = try_candidates-Round uv n.cands w n (record { app = s.app; made = s.made }) s.keyed in
      let m = record r.node { cands = r.table } in
      (
        record r.after { app = node_app m },
        m,
        bind_step get_node _ w (get_node-node w n s.app)
            ∙ bind_step (try_candidates uv n.cands) _ w r.runs
            ∙ rw (r.stands.app, modify_node) refl,
        record {
          order = record { app = refl; made = r.stands.made; keyed = r.keyed };
          grown = record {
            name = r.grown.name;
            extra = r.grown.extra;
            peers = r.grown.peers;
            clients = r.grown.clients;
            same = r.grown.same;
            quiet = r.grown.quiet;
          };
          same_keys = r.same_keys;
          done = r.done;
          reached = r.reached;
        },
      )

  -- The node with one more candidate, and the world in which it has it.
  abbrev pub knowing : Bytes → ℤ → Node → Node
  knowing host port n = record n { cands = add_out_peer_candidate host port 1 n.cands }

  pub learn_candidate-settles :
      (host : Bytes) (port : ℤ) (n : Node) (w : World)
      → IsInOrder n w
      → (v : World) × (m : Node) × (learn_candidate uv host port w ≡ ok (tt, v))
        × IsSettledBy (record w { app = node_app (knowing host port n) }) (knowing host port n) m v
  unfolding learn_candidate
  learn_candidate-settles host port n w s =
      let next = knowing host port n in
      let (v, m, e, r) =
        try_out-settles (record w { app = node_app next }) next
          (record {
            app = refl;
            made = s.made;
            keyed = add-AreKeyed host port 1 n.cands s.keyed;
          }) in
      (v, m, rw s.app e, r)

  -- A node in good order gets the endpoint of another peer, whatever libuv answers: the handler ends
  -- without a fault, and the node is in good order again. Its candidates are those from before and
  -- the endpoint. An outgoing peer of the endpoint is in the list, or the endpoint is a local host with
  -- the port of the node's own name. Of each other candidate the same holds, or it was tried at least
  -- once and as often as it may be.
  pub other_peer-settles :
      (i : ℕ) (host : Bytes) (port : ℤ) (n : Node) (w : World)
      → IsInOrder n w
      → (v : World) × (m : Node) × (node_message_received uv i (Message.other_peer host port) w
          ≡ ok (tt, v))
        × IsInOrder m v
        × ((k : Bytes)
            → has_key k m.cands ≡ (bytes_eq (candidate_key host port) k || has_key k n.cands))
        × AreSettled v.client m m.cands
        × (HasOutgoing v.client (candidate_key host port) m.peers
            ⊎ IsItself m.name (candidate_key host port))
  unfolding node_message_received
  other_peer-settles i host port n w s =
      let (v, m, e, r) = learn_candidate-settles host port n w s in
      (
        v,
        m,
        e,
        r.order,
        λ k. r.same_keys k ∙ has_key-add host port 1 n.cands k,
        AreDone-AreSettled v.client m m.cands r.order.keyed r.done,
        reached-HasOutgoing v.client m host port n.cands s.keyed r.reached,
      )
