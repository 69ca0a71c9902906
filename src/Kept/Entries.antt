-- ===== src/Kept/Entries.antt =====
-- The steps that make and drop the entries of the tables (lib/app.cpp, node/node.cpp) keep the classes
-- of the connections.
use tcpserver_cpp_libuv_samp.Base.{
  ℕ, suc, ◌<◌, ◌==◌, ◌≡◌, refl, ap, ◌∙◌, Bool, true, false, Bool-cases, inl, inr, Bytes, some,
  arith, append-IsIn,
}
use tcpserver_cpp_libuv_samp.World.{
  Kind, client_in, client_out, peer_client_out, Client, Peer, Node, App, server_app, client_app,
  node_app, World, set_at,
}
use tcpserver_cpp_libuv_samp.App.{closed_app, received_app, nice_peer_addr}
use tcpserver_cpp_libuv_samp.Client.{new_client_in, new_client_out, new_peer_client_out}
use tcpserver_cpp_libuv_samp.Node.{push_peer}
use tcpserver_cpp_libuv_samp.Kept.Steady.{Steady}
use tcpserver_cpp_libuv_samp.Kept.Trials.{Trials}
use tcpserver_cpp_libuv_samp.Kept.Classes.{
  IsOwned, class_of, AreListed, IsTyped, same_kinds, new_listed, insert-IsIn, closed_listed,
  closed-IsOwned,
}

-- A new connection of a class that the application may have.
pub new-IsOwned :
    (f : ℕ → Client) (next : ℕ) (c : Client) (a b : App)
    → ((k : Kind) → IsOwned a k → IsOwned b k)
    → IsOwned b c.kind
    → ((i : ℕ) → i < next → IsOwned a (f i).kind)
    → (i : ℕ) → i < suc next
    → IsOwned b (set_at f next c i).kind
new-IsOwned f next c a b sub own h i lt = elim (Bool-cases (next == i)) [
  | inl e ↦ rw e own
  | inr e ↦ rw e (sub (f i).kind (h i (ground arith)))
]

pub node-IsOwned : (n m : Node) (k : Kind) → IsOwned (node_app n) k → IsOwned (node_app m) k
node-IsOwned n m client_in h = tt
node-IsOwned n m client_out h = tt
node-IsOwned n m peer_client_out h = tt

received-IsOwned :
    (f : ℕ → Client) (i : ℕ) (a : App) (k : Kind) → IsOwned a k → IsOwned (received_app f i a) k
unfolding received_app
received-IsOwned f i a client_in h = tt
received-IsOwned f i a client_out h = tt
received-IsOwned f i (server_app s) peer_client_out h = h
received-IsOwned f i client_app peer_client_out h = h
received-IsOwned f i (node_app n) peer_client_out h = tt

-- The entry of the newest connection.
newest :
    (f : ℕ → Client) (next : ℕ) (c : Client) (k : Kind) (i : ℕ)
    → next ≡ i
    → c.kind ≡ k
    → (i < suc next) × ((set_at f next c i).kind ≡ k)
newest f next c k i e q = let self : (next == i) ≡ true = ground arith in (omega arith, rw self q)

pushed_listed :
    (f : ℕ → Client) (next : ℕ) (c : Client) (n : Node) (out : Bool)
    → c.kind ≡ class_of out
    → AreListed f next (node_app n)
    → AreListed (set_at f next c) (suc next) (node_app (push_peer (some next) out n))
unfolding push_peer
pushed_listed f next c n out q h = λ p i r e. elim (append-IsIn p n.peers _ r) [
  | inl old ↦ new_listed f next c (node_app n) h p i old e
  | inr (inl x) ↦
      let one : some next ≡ some i = ap (λ (y : Peer). y.client) x ∙ e in
      let same : next ≡ i = cc in
      let flag : out ≡ p.out_flag = ap (λ (y : Peer). y.out_flag) x in
      newest f next c (class_of p.out_flag) i same (q ∙ ap class_of flag)
  | inr (inr x) ↦ absurd x
]

received_listed :
    (f : ℕ → Client) (next : ℕ) (c : Client) (a : App)
    → c.kind ≡ client_in
    → AreListed f next a
    → AreListed (set_at f next c) (suc next) (received_app (set_at f next c) next a)
unfolding received_app push_peer
received_listed f next c (server_app s) q h = λ key i r.
    elim (insert-IsIn (nice_peer_addr (set_at f next c next)) next s.clients (key, i) r) [
      | inl e ↦ newest f next c client_in i (ap (λ (x : Bytes × ℕ). x.1) e) q
      | inr old ↦ new_listed f next c (server_app s) h key i old
    ]
received_listed f next c client_app q h = tt
received_listed f next c (node_app n) q h = pushed_listed f next c n false q h

closed_kinds :
    (w : World) (i : ℕ)
    → IsTyped w
    → (j : ℕ) → j < w.next_client
    → IsOwned (closed_app w.client i w.app) (w.client j).kind
closed_kinds w i t j lt = closed-IsOwned w.client i w.app (w.client j).kind (t.owned j lt)

pub IsTyped-Steady : Steady IsTyped
unfolding new_client_in
IsTyped-Steady = record {
  clients = λ f w same t. record {
    owned = λ i lt. rw (same i) (t.owned i lt);
    listed = same_kinds f w.client w.next_client w.app same t.listed;
  };
  handles = λ k w t. record { owned = t.owned; listed = t.listed };
  calls = λ c w t. record { owned = t.owned; listed = t.listed };
  closings = λ i w t. record {
    owned = closed_kinds w i t;
    listed = closed_listed w.client w.next_client i w.app t.listed;
  };
  entries = λ handle addr w t.
      let c = new_client_in handle addr in
      record {
        owned =
            new-IsOwned w.client w.next_client c w.app _ (received-IsOwned _ w.next_client w.app) tt
              t.owned;
        listed = received_listed w.client w.next_client c w.app refl t.listed;
      };
}

pub IsTyped-Trials : Trials IsTyped
unfolding new_peer_client_out new_client_out
IsTyped-Trials = record {
  steady = IsTyped-Steady;
  dials = λ host port n w t.
      let c = new_peer_client_out host port in
      record {
        owned =
            new-IsOwned w.client w.next_client c (node_app n)
              (node_app (push_peer (some w.next_client) true n))
              (node-IsOwned n (push_peer (some w.next_client) true n)) tt t.owned;
        listed = pushed_listed w.client w.next_client c n true refl t.listed;
      };
  tables = λ n m w t. record {
    owned = λ i lt. node-IsOwned n (record n { cands = m }) (w.client i).kind (t.owned i lt);
    listed = t.listed;
  };
}
