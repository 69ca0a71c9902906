-- ===== src/Kept/Classes.antt =====
-- The classes of the connections in the tables of the applications (lib/app.hpp, node/node.hpp).
use tcpserver_cpp_libuv_samp.Base.{
  ℕ, suc, ◌<◌, ◌==◌, ◌≡◌, ap, ◌∙◌, ◌⊎◌, Bool, true, false, Bool-cases, inl, inr, List, [], ◌∷◌,
  Bytes, bytes_eq, bytes_eq_iff, some, arith, IsIn,
}
use tcpserver_cpp_libuv_samp.Dict.{Dict, insert, bytes_lt}
use tcpserver_cpp_libuv_samp.World.{
  Kind, client_in, client_out, peer_client_out, Client, Peer, App, server_app, client_app, node_app,
  World, set_at,
}
use tcpserver_cpp_libuv_samp.Peers.Closed.{survives, surviving, close_peer-surviving}
use tcpserver_cpp_libuv_samp.App.{erase_client, closed_app}

-- A `PeerClientOut` belongs to a node, to which its methods cast the application.
abbrev pub IsNode : App → Type 0
IsNode (server_app s) = ⊥
IsNode client_app = ⊥
IsNode (node_app n) = Unit

abbrev pub IsOwned : App → Kind → Type 0
IsOwned a client_in = Unit
IsOwned a client_out = Unit
IsOwned a peer_client_out = IsNode a

-- The class that the flag of an entry tells.
abbrev pub class_of : Bool → Kind
class_of true = peer_client_out
class_of false = client_in

-- Every entry of a table refers to a connection that was made, of the class that belongs there.
abbrev pub AreListed : (ℕ → Client) → ℕ → App → Type 0
AreListed client next (server_app s) =
    (key : Bytes) (i : ℕ) → IsIn (key, i) s.clients → (i < next) × ((client i).kind ≡ client_in)
AreListed client next client_app = Unit
AreListed client next (node_app n) =
    (p : Peer) (i : ℕ)
    → IsIn p n.peers
    → p.client ≡ some i
    → (i < next) × ((client i).kind ≡ class_of p.out_flag)

pub record IsTyped (w : World) : Type 0 where
  pub owned : (i : ℕ) → i < w.next_client → IsOwned w.app (w.client i).kind
  pub listed : AreListed w.client w.next_client w.app

pub same_kinds :
    (f g : ℕ → Client) (next : ℕ) (a : App)
    → ((j : ℕ) → (f j).kind ≡ (g j).kind)
    → AreListed g next a
    → AreListed f next a
same_kinds f g next (server_app s) same h = λ key i q. let (lt, e) = h key i q in (lt, same i ∙ e)
same_kinds f g next client_app same h = tt
same_kinds f g next (node_app n) same h = λ p i q e. let (lt, r) = h p i q e in (lt, same i ∙ r)

-- A new connection changes nothing for the ones before it.
pub set_next : (f : ℕ → Client) (next : ℕ) (c : Client) (i : ℕ) → i < next → set_at f next c i ≡ f i
set_next f next c i lt = let other : (next == i) ≡ false = ground arith in rw other

pub new_listed :
    (f : ℕ → Client) (next : ℕ) (c : Client) (a : App)
    → AreListed f next a
    → AreListed (set_at f next c) (suc next) a
new_listed f next c (server_app s) h = λ key i q.
    let (lt, e) = h key i q in
    (omega arith, ap (λ (d : Client). d.kind) (set_next f next c i lt) ∙ e)
new_listed f next c client_app h = tt
new_listed f next c (node_app n) h = λ p i q e.
    let (lt, r) = h p i q e in
    (omega arith, ap (λ (d : Client). d.kind) (set_next f next c i lt) ∙ r)

pub surviving-IsIn :
    (client : ℕ → Client) (i : ℕ) (ps : List Peer) (p : Peer)
    → IsIn p (surviving client i ps)
    → IsIn p ps
unfolding surviving
surviving-IsIn client i [] p h = h
surviving-IsIn client i (q ∷ ps) p h = elim (Bool-cases (survives client i q)) [
  | inl e ↦
      let g : IsIn p (q ∷ surviving client i ps) = rw e at h in
      elim g [ inl r ↦ inl r | inr r ↦ inr (surviving-IsIn client i ps p r) ]
  | inr e ↦ inr (surviving-IsIn client i ps p (rw e at h))
]

pub erase_client-IsIn : (i : ℕ) (m : Dict ℕ) (e : Bytes × ℕ) → IsIn e (erase_client i m) → IsIn e m
unfolding erase_client
erase_client-IsIn i [] e h = h
erase_client-IsIn i ((k, j) ∷ m) e h = elim (Bool-cases (j == i)) [
  | inl q ↦ inr (rw q at h)
  | inr q ↦
      let g : IsIn e ((k, j) ∷ erase_client i m) = rw q at h in
      elim g [ inl r ↦ inl r | inr r ↦ inr (erase_client-IsIn i m e r) ]
]

pub insert-IsIn :
    (key : Bytes) (v : ℕ) (m : Dict ℕ) (e : Bytes × ℕ)
    → IsIn e (insert key v m)
    → ((key, v) ≡ e) ⊎ IsIn e m
unfolding insert
insert-IsIn key v [] e (inl r) = inl r
insert-IsIn key v [] e (inr r) = absurd r
insert-IsIn key v ((k, j) ∷ m) e h = elim (Bool-cases (bytes_eq k key)) [
  | inl q ↦
      let g : IsIn e ((k, v) ∷ m) = rw q at h in
      elim g [ inl r ↦ inl (ground (arith, bytes_eq_iff k key)) | inr r ↦ inr (inr r) ]
  | inr q ↦ elim (Bool-cases (bytes_lt key k)) [
    | inl x ↦ let g : IsIn e ((key, v) ∷ (k, j) ∷ m) = rw (q, x) at h in g
    | inr x ↦
        let g : IsIn e ((k, j) ∷ insert key v m) = rw (q, x) at h in
        elim g [
          | inl r ↦ inr (inl r)
          | inr r ↦ elim (insert-IsIn key v m e r) [ inl y ↦ inl y | inr y ↦ inr (inr y) ]
        ]
  ]
]

-- `connectionClosed` only takes entries out.
pub closed_listed :
    (client : ℕ → Client) (next i : ℕ) (a : App)
    → AreListed client next a
    → AreListed client next (closed_app client i a)
unfolding closed_app
closed_listed client next i (server_app s) h =
    λ key j q. h key j (erase_client-IsIn i s.clients (key, j) q)
closed_listed client next i client_app h = tt
closed_listed client next i (node_app n) h = λ p j q e.
    h p j (surviving-IsIn client i n.peers p (rw (close_peer-surviving client i n.peers) at q)) e

pub closed-IsOwned :
    (client : ℕ → Client) (i : ℕ) (a : App) (k : Kind)
    → IsOwned a k
    → IsOwned (closed_app client i a) k
unfolding closed_app
closed-IsOwned client i (server_app s) client_in h = tt
closed-IsOwned client i (server_app s) client_out h = tt
closed-IsOwned client i (server_app s) peer_client_out h = h
closed-IsOwned client i client_app k h = h
closed-IsOwned client i (node_app n) client_in h = tt
closed-IsOwned client i (node_app n) client_out h = tt
closed-IsOwned client i (node_app n) peer_client_out h = tt
