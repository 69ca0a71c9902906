-- ===== src/Kept/Order.antt =====
-- A node in good order over whole runs, and the `OtherPeer` message that it then gets
-- (`messageReceived` of node/node.cpp).
use tcpserver_cpp_libuv_samp.Base.{
  ℕ, ◌⊎◌, ◌≡◌, refl, ◌∙◌, true, List, [], Bytes, bytes_eq, bytes_eq_iff,
}
use tcpserver_cpp_libuv_samp.Base.Int.{ℤ}
use tcpserver_cpp_libuv_samp.Base.Outcome.{Outcome, ok, fault}
use tcpserver_cpp_libuv_samp.Message.{Message}
use tcpserver_cpp_libuv_samp.World.{
  PeerCandidate, Node, App, server_app, client_app, node_app, Uv, World, ◌>>◌,
}
use tcpserver_cpp_libuv_samp.Peers.{candidate_key}
use tcpserver_cpp_libuv_samp.Node.{node_message_received}
use tcpserver_cpp_libuv_samp.Node.Trying.{TableOf}
use tcpserver_cpp_libuv_samp.Node.Goals.{HasOutgoing, IsItself, AreSettled}
use tcpserver_cpp_libuv_samp.Node.Settled.{has_key}
use tcpserver_cpp_libuv_samp.Node.Discovery.{IsInOrder, add-AreKeyed, other_peer-settles}
use tcpserver_cpp_libuv_samp.Frame.{After, After-map}
use tcpserver_cpp_libuv_samp.Listen.{AppParams, node_start}
use tcpserver_cpp_libuv_samp.Kept.{then-Kept}
use tcpserver_cpp_libuv_samp.Kept.Starts.{node_start-Kept}
use tcpserver_cpp_libuv_samp.Kept.Tables.{TableRule, table_laws, table_starts}
use tcpserver_cpp_libuv_samp.Kept.Runs.{Event, run, run-Kept}
use tcpserver_cpp_libuv_samp.Kept.Classes.{IsTyped, AreListed}
use tcpserver_cpp_libuv_samp.Kept.Typed.{run-IsTyped}

-- An entry stands under its endpoint.
abbrev HasItsKey : Bytes × PeerCandidate → Type 0
HasItsKey e = e.0 ≡ candidate_key e.1.host e.1.port

HasItsKey-TableRule : TableRule HasItsKey
HasItsKey-TableRule = record {
  trial = λ key c res may e. e;
  entry_added = λ host port to_try m some_tries. add-AreKeyed host port to_try m;
}

both-After :
    {A : Type 0} (P Q : World → Type 0) (r : Outcome (A × World))
    → After P r
    → After Q r
    → After (λ v. P v × Q v) r
both-After P Q (ok (a, v)) p q = (p, q)
both-After P Q (fault e) p q = tt

node-IsInOrder :
    (w : World) (a : App)
    → w.app ≡ a
    → AreListed w.client w.next_client a
    → TableOf ⊥ HasItsKey a
    → (n : Node) × IsInOrder n w
node-IsInOrder w (server_app s) e l k = absurd k
node-IsInOrder w client_app e l k = absurd k
node-IsInOrder w (node_app n) e l k =
    (n, record { app = e; made = λ p i q r. (l p i q r).0; keyed = k })

module _ (uv : Uv) (host : Bytes) (port : ℤ) where
  -- The message is handled without a fault: the endpoint has an outgoing peer or is the node itself,
  -- and all candidates are settled.
  abbrev pub Learns : ℕ → World → Type 0
  Learns i w =
      (v : World) × (n : Node) × (node_message_received uv i (Message.other_peer host port) w
        ≡ ok (tt, v))
      × IsInOrder n v
      × (has_key (candidate_key host port) n.cands ≡ true)
      × AreSettled v.client n n.cands
      × (HasOutgoing v.client (candidate_key host port) n.peers
          ⊎ IsItself n.name (candidate_key host port))

  in_order-Learns : (i : ℕ) (n : Node) (w : World) → IsInOrder n w → Learns i w
  in_order-Learns i n w s =
      let (v, m, e, o, keys, settled, reached) = other_peer-settles uv i host port n w s in
      let key = candidate_key host port in
      let self : bytes_eq key key ≡ true = (bytes_eq_iff key key).1 refl in
      (v, m, e, o, keys key ∙ rw self refl, settled, reached)

  -- A node that starts with empty tables, after its start and any sequence of callbacks that end
  -- without a fault, whatever the peers send and libuv answers: the message of another peer's
  -- endpoint, from any connection, is handled without a fault. The endpoint is then a candidate, and
  -- an outgoing peer of it is in the list, or it is a local host with the port of the node's own name.
  -- Of each other candidate the same holds, or it was tried at least once and as often as it may be.
  -- The node's entries refer to connections that were made, and its candidates stand under their
  -- endpoints.
  pub run-Learns :
      (params : AppParams) (es : List Event) (i : ℕ) (n : Node) (w : World)
      → w.app ≡ node_app n
      → n.cands ≡ []
      → n.peers ≡ []
      → w.next_client ≡ 0
      → After (Learns i) ((node_start uv params >> run uv es) w)
  run-Learns params es i n w a no_cands no_peers none_made =
      let m = node_start uv params >> run uv es in
      let keyed_runs =
        then-Kept _ _ (node_start-Kept uv (table_starts ⊥ HasItsKey-TableRule uv) params)
          (run-Kept uv (table_laws ⊥ HasItsKey-TableRule uv) es) in
      let keyed : After (λ v. TableOf ⊥ HasItsKey v.app) (m w) =
        keyed_runs.at w (rw (a, no_cands) tt) in
      let typed : After IsTyped (m w) =
        (run-IsTyped uv params es w none_made (rw (a, no_peers) refl)).0 in
      After-map (λ v. IsTyped v × TableOf ⊥ HasItsKey v.app) (Learns i) (m w)
        (λ v (t, k).
          let (n', s) = node-IsInOrder v v.app refl t.listed k in in_order-Learns i n' v s)
        (both-After IsTyped (λ v. TableOf ⊥ HasItsKey v.app) (m w) typed keyed)
