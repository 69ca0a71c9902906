-- ===== src/Peers/Closed.antt =====
-- `connectionClosed` of node/node.cpp, and the peers that stay.
use tcpserver_cpp_libuv_samp.Base.{
  ℕ, zero, suc, ◌≤◌, ◌≡◌, refl, ap, ◌==◌, Bool, true, false, not, ◌||◌, List, [], ◌∷◌, none, some,
  arith, bytes_eq, length, Option-cases, inl, inr, if◌then◌else◌,
}
use tcpserver_cpp_libuv_samp.World.{Client, Peer}
use tcpserver_cpp_libuv_samp.Peers.{
  reset_client, reset_clients, erase_first, erase_null, close_peer,
}

-- An entry whose pointer is not null.
abbrev pub has_client : Peer → Bool
has_client p = elim p.client [ none ↦ false | some i ↦ true ]

-- The entries with a client.
unfoldable pub live_peers : List Peer → List Peer
live_peers [] = []
live_peers (p ∷ ps) = if has_client p then p ∷ live_peers ps else live_peers ps

erase_first-none : (ps : List Peer) → erase_first ps ≡ none → live_peers ps ≡ ps
unfolding erase_first live_peers
erase_first-none [] h = refl
erase_first-none (p ∷ ps) h = ground (arith, erase_first-none ps)

erase_first-some :
    (ps qs : List Peer)
    → erase_first ps ≡ some qs
    → (live_peers qs ≡ live_peers ps) × (suc (length qs) ≡ length ps)
unfolding erase_first live_peers
erase_first-some [] qs h = ground arith
erase_first-some (p ∷ ps) qs h = elim (Option-cases (erase_first ps)) [
  | inl e ↦ ground arith
  | inr (rs, e) ↦ ground (arith, erase_first-some ps rs e)
]

-- The loop ends within as many rounds as there are entries, with the null entries gone.
pub erase_null-live_peers :
    (f : ℕ) (ps : List Peer) → length ps ≤ f → erase_null f ps ≡ live_peers ps
unfolding erase_null
erase_null-live_peers zero [] h = unfold live_peers in refl
erase_null-live_peers zero (p ∷ ps) h = absurd (omega arith)
erase_null-live_peers (suc f) ps h = elim (Option-cases (erase_first ps)) [
  | inl e ↦ ground (arith, erase_first-none ps e)
  | inr (qs, e) ↦ ground (arith, erase_first-some ps qs e, erase_null-live_peers f qs)
]

module _ (client : ℕ → Client) (i : ℕ) where
  -- What the closing of connection `i` spares: a client of another identity and address.
  abbrev pub survives : Peer → Bool
  survives p = elim p.client [
    | none ↦ false
    | some j ↦ not (j == i || bytes_eq (client j).peer_addr (client i).peer_addr)
  ]

  unfoldable pub surviving : List Peer → List Peer
  surviving [] = []
  surviving (p ∷ ps) = if survives p then p ∷ surviving ps else surviving ps

  live-reset : (ps : List Peer) → live_peers (reset_clients client i ps) ≡ surviving ps
  unfolding live_peers reset_clients reset_client surviving
  live-reset [] = refl
  live-reset (p ∷ ps) = ground (arith, live-reset ps)

  length-reset : (ps : List Peer) → length (reset_clients client i ps) ≡ length ps
  unfolding reset_clients
  length-reset [] = refl
  length-reset (p ∷ ps) = ap suc (length-reset ps)

  -- After the closing of connection `i` the list holds, in the old order, exactly the entries whose
  -- client is another one with another address: no null entry is left.
  pub close_peer-surviving : (ps : List Peer) → close_peer client i ps ≡ surviving ps
  unfolding close_peer
  close_peer-surviving ps =
      rw
        (erase_null-live_peers (length ps) (reset_clients client i ps)
          (omega (arith, length-reset ps)))
        (live-reset ps)
