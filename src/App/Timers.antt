-- ===== src/App/Timers.antt =====
-- The timers of the connections that `connectionClosed` of node/node.cpp drops: the destructor of
-- node/peer_conn.cpp.
use tcpserver_cpp_libuv_samp.World.Steps.{set_at_self}
use tcpserver_cpp_libuv_samp.Base.{
  IsIn, ℕ, ◌≡◌, ◌++◌, refl, ap, ◌∙◌, ◌==◌, ◌||◌, not, Bool, true, false, Bool-cases, Option-cases,
  inl, inr, List, [], ◌∷◌, Option, none, some, arith, bytes_eq,
}
use tcpserver_cpp_libuv_samp.Base.Outcome.{ok}
use tcpserver_cpp_libuv_samp.World.{
  Kind, client_in, client_out, peer_client_out, Client, Peer, Node, Call, uv_timer_stop, node_app,
  Uv, World,
}
use tcpserver_cpp_libuv_samp.Peers.{dropped_peers}
use tcpserver_cpp_libuv_samp.Peers.Closed.{survives, surviving, close_peer-surviving}
use tcpserver_cpp_libuv_samp.App.{closed_app, dropped_app, connection_closed}
use tcpserver_cpp_libuv_samp.App.Dropped.{
  destroyed_timer, destroyed_as, destroyed, destroyed-IsSpared, destroy_all-destroyed,
}
use tcpserver_cpp_libuv_samp.App.Stops.{destroyed-stops}

-- A destructor starts no timer, and keeps the class of every connection.
as-timer :
    (k : Kind) (j : ℕ) (o : Option ℕ) (w : World) (i : ℕ)
    → (w.client i).timer ≡ none
    → ((destroyed_as k j o w).client i).timer ≡ none
unfolding destroyed_as destroyed_timer
as-timer client_in j o w i e = e
as-timer client_out j o w i e = e
as-timer peer_client_out j none w i e = e
as-timer peer_client_out j (some t) w i e = elim (Bool-cases (j == i)) [
  | inl q ↦ rw q
  | inr q ↦ rw q e
]

as-kind :
    (k : Kind) (j : ℕ) (o : Option ℕ) (w : World) (i : ℕ)
    → ((destroyed_as k j o w).client i).kind ≡ (w.client i).kind
unfolding destroyed_as destroyed_timer
as-kind client_in j o w i = refl
as-kind client_out j o w i = refl
as-kind peer_client_out j none w i = refl
as-kind peer_client_out j (some t) w i = elim (Bool-cases (j == i)) [
  | inl q ↦ let same : j ≡ i = ground arith in rw (q, same)
  | inr q ↦ rw q
]

own-timer :
    (k : Kind) (j : ℕ) (o : Option ℕ) (w : World)
    → k ≡ peer_client_out
    → (w.client j).timer ≡ o
    → ((destroyed_as k j o w).client j).timer ≡ none
unfolding destroyed_as destroyed_timer
own-timer client_in j o w p e = cc
own-timer client_out j o w p e = cc
own-timer peer_client_out j none w p e = e
own-timer peer_client_out j (some t) w p e = ap (λ (c : Client). c.timer) (set_at_self w.client j _)

destroyed-timer :
    (js : List ℕ) (w : World) (i : ℕ)
    → (w.client i).timer ≡ none
    → ((destroyed js w).client i).timer ≡ none
unfolding destroyed
destroyed-timer [] w i e = e
destroyed-timer (j ∷ js) w i e =
    destroyed-timer js _ i (as-timer (w.client j).kind j (w.client j).timer w i e)

destroyed_stopped :
    (js : List ℕ) (w : World) (i : ℕ)
    → IsIn i js
    → (w.client i).kind ≡ peer_client_out
    → ((destroyed js w).client i).timer ≡ none
unfolding destroyed
destroyed_stopped [] w i h k = absurd h
destroyed_stopped (j ∷ js) w i (inl e) k =
    destroyed-timer js _ i
      (rw (← e) (own-timer (w.client j).kind j (w.client j).timer w (rw e k) refl))
destroyed_stopped (j ∷ js) w i (inr h) k =
    destroyed_stopped js _ i h (as-kind (w.client j).kind j (w.client j).timer w i ∙ k)

untested : (b : Bool) → not b ≡ false → b ≡ true
untested true h = refl
untested false h = cc

module _ (client : ℕ → Client) (i : ℕ) where
  dropped_peers-IsIn :
      (ps : List Peer) (p : Peer) (j : ℕ)
      → IsIn p ps
      → p.client ≡ some j
      → survives client i p ≡ false
      → IsIn j (dropped_peers client i ps)
  unfolding dropped_peers
  dropped_peers-IsIn [] p j h e gone = absurd h
  dropped_peers-IsIn (q ∷ ps) p j (inl same) e gone =
      let held : q.client ≡ some j = ap (λ (r : Peer). r.client) same ∙ e in
      let g : not (j == i || bytes_eq (client j).peer_addr (client i).peer_addr) ≡ false =
        rw e at gone in
      let hit : (j == i || bytes_eq (client j).peer_addr (client i).peer_addr) ≡ true =
        untested _ g in
      rw (held, hit) (inl refl)
  dropped_peers-IsIn (q ∷ ps) p j (inr h) e gone =
      let later = dropped_peers-IsIn ps p j h e gone in
      elim (Option-cases q.client) [
        | inl r ↦ rw r later
        | inr (k, r) ↦
            rw r (elim (Bool-cases (k == i || bytes_eq (client k).peer_addr (client i).peer_addr)) [
              | inl t ↦ rw t (inr later)
              | inr t ↦ rw t later
            ])
      ]

-- Connection `i` of a node is closed, and an entry of the node's list, which does not survive this,
-- refers to the outgoing peer connection `j`, which has a timer: the run ends without a fault, the
-- list holds afterwards exactly the entries that survive, in their order, libuv has been asked in
-- this run to stop the timer, and `j` has none.
pub connection_closed-surviving :
    (uv : Uv) (i : ℕ) (n : Node) (w : World) (p : Peer) (j t : ℕ)
    → w.app ≡ node_app n
    → IsIn p n.peers
    → p.client ≡ some j
    → survives w.client i p ≡ false
    → (w.client j).kind ≡ peer_client_out
    → (w.client j).timer ≡ some t
    → (v : World) × (connection_closed uv i w ≡ ok (tt, v))
      × (v.app ≡ node_app (record n { peers = surviving w.client i n.peers }))
      × ((v.client j).timer ≡ none)
      × (added : List Call) × (v.trace ≡ added ++ w.trace)
      × IsIn (uv_timer_stop t) added
unfolding connection_closed closed_app dropped_app
connection_closed-surviving uv i n w p j t a h e gone k timed =
    let js = dropped_app w.client i w.app in
    let u = record w { app = closed_app w.client i w.app } in
    let dropped : IsIn j js = rw a (dropped_peers-IsIn w.client i n.peers p j h e gone) in
    let (added, extended, stops) = destroyed-stops js u j t dropped k timed in
    (
      destroyed js u,
      destroy_all-destroyed uv js u,
      (destroyed-IsSpared js u).app
          ∙ ap (closed_app w.client i) a
          ∙ ap (λ ps. node_app (record n { peers = ps })) (close_peer-surviving w.client i n.peers),
      destroyed_stopped js u j dropped k,
      added,
      extended,
      stops,
    )
