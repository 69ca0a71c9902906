-- ===== src/Kept/Tables.antt =====
-- Predicates of the entries of a node's table of candidates (node/node.cpp) over the operations of
-- the connections and the starts.
use tcpserver_cpp_libuv_samp.Base.{
  ℕ, zero, suc, ◌+◌, ◌≤◌, ◌≡◌, true, List, [], ◌∷◌, Bytes, All, arith, codes,
}
use tcpserver_cpp_libuv_samp.Base.Int.{ℤ, pos}
use tcpserver_cpp_libuv_samp.Dict.{Dict}
use tcpserver_cpp_libuv_samp.Endpoint.{parse_endpoint}
use tcpserver_cpp_libuv_samp.World.{
  Client, PeerCandidate, Node, App, server_app, client_app, node_app, Uv, World,
}
use tcpserver_cpp_libuv_samp.Frame.{After}
use tcpserver_cpp_libuv_samp.Peers.{add_out_peer_candidate, may_try}
use tcpserver_cpp_libuv_samp.App.{closed_app, received_app}
use tcpserver_cpp_libuv_samp.Node.{modify_node, try_out_connections, learn_candidate}
use tcpserver_cpp_libuv_samp.Node.Trying.{TableOf, tried, try_out_connections-keeps}
use tcpserver_cpp_libuv_samp.Listen.{name_server, add_extra_peer, add_extra_peers, add_local_peers}
use tcpserver_cpp_libuv_samp.Kept.Steady.{Steady, steady_laws}
use tcpserver_cpp_libuv_samp.Kept.Starts.{Starts}
use tcpserver_cpp_libuv_samp.Kept.{Kept, Laws, then-Kept}

-- What is asked of such a predicate: a trial and `addOutPeerCandidate` keep it.
pub record TableRule (Q : Bytes × PeerCandidate → Type 0) : Type 0 where
  pub trial :
      (key : Bytes) (c : PeerCandidate) (res : ℤ)
      → may_try c ≡ true
      → Q (key, c)
      → Q (key, tried c res)
  pub entry_added :
      (host : Bytes) (port : ℤ) (to_try : ℕ) (m : Dict PeerCandidate)
      → 1 ≤ to_try
      → All Q m
      → All Q (add_out_peer_candidate host port to_try m)

module _ (E : Type 0) {Q : Bytes × PeerCandidate → Type 0} (R : TableRule Q) where
  closed_table : (f : ℕ → Client) (i : ℕ) (a : App) → TableOf E Q a → TableOf E Q (closed_app f i a)
  unfolding closed_app
  closed_table f i (server_app s) b = b
  closed_table f i client_app b = b
  closed_table f i (node_app n) b = b

  received_table :
      (f : ℕ → Client) (i : ℕ) (a : App) → TableOf E Q a → TableOf E Q (received_app f i a)
  unfolding received_app
  received_table f i (server_app s) b = b
  received_table f i client_app b = b
  received_table f i (node_app n) b = b

  renamed_table :
      (uv : Uv) (port : ℤ) (a : App) → TableOf E Q a → TableOf E Q (name_server uv port a)
  unfolding name_server
  renamed_table uv port (server_app s) b = b
  renamed_table uv port client_app b = b
  renamed_table uv port (node_app n) b = b

  modify_node-of :
      (f : Node → Node) (w : World) (a : App)
      → ((n : Node) → All Q n.cands → All Q (f n).cands)
      → TableOf E Q a
      → After (λ v. TableOf E Q v.app) (modify_node f (record w { app = a }))
  modify_node-of f w (server_app s) h b = tt
  modify_node-of f w client_app h b = tt
  modify_node-of f w (node_app n) h b = h n b

  modify_node-Kept :
      (f : Node → Node)
      → ((n : Node) → All Q n.cands → All Q (f n).cands)
      → Kept (λ w. TableOf E Q w.app) (modify_node f)
  modify_node-Kept f h = record { at = λ w b. modify_node-of f w w.app h b }

  table_steady : Steady (λ w. TableOf E Q w.app)
  table_steady = record {
    clients = λ f w same b. b;
    handles = λ k w b. b;
    calls = λ c w b. b;
    closings = λ i w b. closed_table w.client i w.app b;
    entries = λ handle addr w b. received_table _ w.next_client w.app b;
  }

  add_extra : (s : Bytes) (n : Node) → All Q n.cands → All Q (add_extra_peer s n).cands
  unfolding add_extra_peer
  add_extra [] n b = b
  add_extra (c ∷ s) n b =
      let e = parse_endpoint (c ∷ s) in R.entry_added e.host e.port 1000000 n.cands (omega arith) b

  add_extras : (ss : List Bytes) (n : Node) → All Q n.cands → All Q (add_extra_peers ss n).cands
  unfolding add_extra_peers
  add_extras [] n b = b
  add_extras (s ∷ ss) n b = add_extras ss (add_extra_peer s n) (add_extra s n b)

  add_locals : (k i : ℕ) (n : Node) → All Q n.cands → All Q (add_local_peers k i n).cands
  unfolding add_local_peers
  add_locals zero i n b = b
  add_locals (suc k) i n b =
      add_locals k (i + 1) _
        (R.entry_added (codes "localhost") (pos (5000 + i)) 1 n.cands (omega arith) b)

  module _ (uv : Uv) where
    trials-Kept : Kept (λ w. TableOf E Q w.app) (try_out_connections uv)
    trials-Kept = record { at = try_out_connections-keeps E Q R.trial uv }

    learn_candidate-Kept :
        (host : Bytes) (port : ℤ) → Kept (λ w. TableOf E Q w.app) (learn_candidate uv host port)
    unfolding learn_candidate
    learn_candidate-Kept host port =
        then-Kept _ _ (modify_node-Kept _ λ n b. R.entry_added host port 1 n.cands (omega arith) b)
          trials-Kept

    pub table_laws : Laws uv (λ w. TableOf E Q w.app)
    table_laws = steady_laws uv table_steady learn_candidate-Kept

    pub table_starts : Starts uv (λ w. TableOf E Q w.app)
    table_starts = record {
      steady = table_steady;
      trials = trials-Kept;
      names = λ name n w b. b;
      renames = λ port w b. renamed_table uv port w.app b;
      locals = modify_node-Kept _ (add_locals 2 0);
      extras = λ ss. modify_node-Kept _ (add_extras ss);
    }
