-- ===== src/Kept/Typed.antt =====
-- Whole runs of the programs: every connection is of a class that its application may have, and
-- every entry of a table refers to a connection of the class that belongs there.
use tcpserver_cpp_libuv_samp.Base.{
  ℕ, suc, zero, ◌+◌, ◌<◌, ◌≡◌, refl, ◌∙◌, List, [], ◌∷◌, Bytes, codes, arith,
}
use tcpserver_cpp_libuv_samp.Base.Int.{ℤ, pos, ◌+ℤ◌}
use tcpserver_cpp_libuv_samp.World.{
  Kind, client_in, client_out, peer_client_out, Client, Node, App, server_app, client_app, node_app,
  Uv, World, M, new_client, ◌>>◌,
}
use tcpserver_cpp_libuv_samp.Client.{new_client_out}
use tcpserver_cpp_libuv_samp.Node.{modify_node}
use tcpserver_cpp_libuv_samp.Frame.{After}
use tcpserver_cpp_libuv_samp.Listen.{
  AppParams, name_server, server_start, add_extra_peer, add_extra_peers, add_local_peers,
  node_start,
}
use tcpserver_cpp_libuv_samp.Programs.{connect_clients, client_start}
use tcpserver_cpp_libuv_samp.Kept.{Kept, bind-Kept, then-Kept, pure-Kept}
use tcpserver_cpp_libuv_samp.Kept.Steady.{destroy_all-Kept}
use tcpserver_cpp_libuv_samp.Kept.Trials.{connect-Kept, try_out_connections-Kept, trial_laws}
use tcpserver_cpp_libuv_samp.Kept.Starts.{Starts, node_start-Kept, server_start-Kept}
use tcpserver_cpp_libuv_samp.Kept.Runs.{Event, run, run-Kept}
use tcpserver_cpp_libuv_samp.Kept.Entries.{
  node-IsOwned, new-IsOwned, IsTyped-Steady, IsTyped-Trials,
}
use tcpserver_cpp_libuv_samp.Kept.Classes.{IsOwned, AreListed, IsTyped, new_listed}

renamed-IsOwned :
    (uv : Uv) (port : ℤ) (a : App) (k : Kind) → IsOwned a k → IsOwned (name_server uv port a) k
unfolding name_server
renamed-IsOwned uv port a client_in h = tt
renamed-IsOwned uv port a client_out h = tt
renamed-IsOwned uv port (server_app s) peer_client_out h = h
renamed-IsOwned uv port client_app peer_client_out h = h
renamed-IsOwned uv port (node_app n) peer_client_out h = tt

renamed_listed :
    (uv : Uv) (port : ℤ) (f : ℕ → Client) (next : ℕ) (a : App)
    → AreListed f next a
    → AreListed f next (name_server uv port a)
unfolding name_server
renamed_listed uv port f next (server_app s) h = h
renamed_listed uv port f next client_app h = h
renamed_listed uv port f next (node_app n) h = h

-- A change of a node that leaves its peers.
same_peers-of :
    (f : Node → Node) (w : World) (a : App)
    → ((n : Node) → (f n).peers ≡ n.peers)
    → IsTyped (record w { app = a })
    → After IsTyped (modify_node f (record w { app = a }))
same_peers-of f w (server_app s) same t = tt
same_peers-of f w client_app same t = tt
same_peers-of f w (node_app n) same t = record {
  owned = λ i lt. node-IsOwned n (f n) (w.client i).kind (t.owned i lt);
  listed = λ p i q e. t.listed p i (rw (same n) at q) e;
}

same_peers-Kept :
    (f : Node → Node) → ((n : Node) → (f n).peers ≡ n.peers) → Kept IsTyped (modify_node f)
same_peers-Kept f same = record { at = λ w t. same_peers-of f w w.app same t }

local_peers : (k i : ℕ) (n : Node) → (add_local_peers k i n).peers ≡ n.peers
unfolding add_local_peers
local_peers zero i n = refl
local_peers (suc k) i n = local_peers k (i + 1) _

extra_peer : (s : Bytes) (n : Node) → (add_extra_peer s n).peers ≡ n.peers
unfolding add_extra_peer
extra_peer [] n = refl
extra_peer (c ∷ s) n = refl

extra_peers : (ss : List Bytes) (n : Node) → (add_extra_peers ss n).peers ≡ n.peers
unfolding add_extra_peers
extra_peers [] n = refl
extra_peers (s ∷ ss) n = extra_peers ss (add_extra_peer s n) ∙ extra_peer s n

-- An application with empty tables.
abbrev pub IsEmpty : App → Type 0
IsEmpty (server_app s) = s.clients ≡ []
IsEmpty client_app = Unit
IsEmpty (node_app n) = n.peers ≡ []

empty_listed : (f : ℕ → Client) (next : ℕ) (a : App) → IsEmpty a → AreListed f next a
empty_listed f next (server_app s) e = λ key i q. absurd (rw e at q)
empty_listed f next client_app e = tt
empty_listed f next (node_app n) e = λ p i q r. absurd (rw e at q)

module _ (uv : Uv) where
  IsTyped-Starts : Starts uv IsTyped
  IsTyped-Starts = record {
    steady = IsTyped-Steady;
    trials = try_out_connections-Kept uv IsTyped-Trials;
    names = λ name n w t. record {
      owned = λ i lt. node-IsOwned n (record n { name = name }) (w.client i).kind (t.owned i lt);
      listed = t.listed;
    };
    renames = λ port w t. record {
      owned = λ i lt. renamed-IsOwned uv port w.app (w.client i).kind (t.owned i lt);
      listed = renamed_listed uv port w.client w.next_client w.app t.listed;
    };
    locals = same_peers-Kept _ (local_peers 2 0);
    extras = λ ss. same_peers-Kept _ (extra_peers ss);
  }

  new_out-Kept :
      (host : Bytes) (port : ℤ) (n : ℕ)
      → Kept IsTyped (new_client (new_client_out client_out host port n))
  unfolding new_client_out
  new_out-Kept host port n = record {
    at = λ w t.
        let c = new_client_out client_out host port n in
        record {
          owned = new-IsOwned w.client w.next_client c w.app w.app (λ k h. h) tt t.owned;
          listed = new_listed w.client w.next_client c w.app t.listed;
        };
  }

  connect_clients-Kept : (k i : ℕ) (port : ℤ) → Kept IsTyped (connect_clients uv k i port)
  unfolding connect_clients
  connect_clients-Kept zero i port = pure-Kept []
  connect_clients-Kept (suc k) i port =
      bind-Kept _ _ (new_out-Kept (codes "localhost") (port +ℤ pos i) (3 + i)) λ c.
        bind-Kept _ _ (connect-Kept uv IsTyped-Trials c)
          λ _. bind-Kept _ _ (connect_clients-Kept k (i + 1) port) λ rest. pure-Kept (c ∷ rest)

  client_start-Kept :
      (loop : M (Unit {0})) (params : AppParams)
      → Kept IsTyped loop
      → Kept IsTyped (client_start uv loop params)
  unfolding client_start
  client_start-Kept loop params h =
      bind-Kept _ _ (connect_clients-Kept 3 0 params.listen_port)
        λ cs. then-Kept _ _ h (destroy_all-Kept uv IsTyped-Steady cs)

  -- Each of the programs from its start on, with no connections and empty tables, and then any
  -- sequence of callbacks, whatever the peers send and libuv answers: where the run ends without a
  -- fault, a `PeerClientOut` belongs to a node, to which its methods cast the application; every
  -- entry of a server refers to a connection that was made, of the class `NetClientIn`; and every
  -- entry of a node that holds a connection refers to one that was made, a `PeerClientOut` where the
  -- entry is outgoing and a `NetClientIn` where it is not.
  pub run-IsTyped :
      (params : AppParams) (es : List Event) (w : World)
      → w.next_client ≡ 0
      → IsEmpty w.app
      → After IsTyped ((node_start uv params >> run uv es) w)
        × After IsTyped ((server_start uv params >> run uv es) w)
        × After IsTyped (client_start uv (run uv es) params w)
  run-IsTyped params es w none_made empty =
      let loop = run-Kept uv (trial_laws uv IsTyped-Trials) es in
      let new : IsTyped w = record {
        owned = λ i lt. let bad : i < 0 = rw none_made at lt in absurd (omega arith);
        listed = empty_listed w.client w.next_client w.app empty;
      } in
      (
        (then-Kept _ _ (node_start-Kept uv IsTyped-Starts params) loop).at w new,
        (then-Kept _ _ (server_start-Kept uv IsTyped-Starts params) loop).at w new,
        (client_start-Kept (run uv es) params loop).at w new,
      )
