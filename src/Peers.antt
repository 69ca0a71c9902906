-- ===== src/Peers.antt =====
-- The two tables of node/node.cpp: the candidates for outgoing connections, and the list of
-- current peers. The connection objects that a peer's pointer leads to are given by a function.
pub mod Candidates
pub mod Closed
use tcpserver_cpp_libuv_samp.Base.{
  ℕ, zero, suc, ◌+◌, ◌==◌, Bool, true, false, ◌&&◌, ◌||◌, List, [], ◌∷◌, ◌++◌, map, Option, none,
  some, Bytes, codes, bytes_eq, ltb, length, if◌then◌else◌,
}
use tcpserver_cpp_libuv_samp.Base.Int.{ℤ}
use tcpserver_cpp_libuv_samp.Text.{to_string}
use tcpserver_cpp_libuv_samp.Dict.{Dict, lookup, insert}
use tcpserver_cpp_libuv_samp.World.{Client, Peer, PeerCandidate}

unfoldable pub new_candidate : Bytes → ℤ → ℕ → PeerCandidate
new_candidate host port to_try = record {
  host = host;
  port = port;
  to_try = to_try;
  conn_try_count = 0;
  connected_count = 0;
}

abbrev pub candidate_key : Bytes → ℤ → Bytes
candidate_key host port = host ++ (codes ":" ++ to_string port)

-- `addOutPeerCandidate`: a known candidate may be tried `to_try` more times.
unfoldable pub add_out_peer_candidate : Bytes → ℤ → ℕ → Dict PeerCandidate → Dict PeerCandidate
unfolding new_candidate
add_out_peer_candidate host port to_try cands =
    let key = candidate_key host port in
    elim (lookup key cands) [
      | none ↦ insert key (new_candidate host port to_try) cands
      | some c ↦ insert key (record c { to_try = to_try + c.conn_try_count }) cands
    ]

-- The test of `tryOutConnections`.
unfoldable pub may_try : PeerCandidate → Bool
may_try c = c.conn_try_count == 0 || ltb c.conn_try_count c.to_try

-- `PeerInfo::setClient`.
abbrev pub set_client : Option ℕ → Peer → Peer
set_client i p = record p { client = i }

-- `PeerInfo::resetClient`.
abbrev pub drop_client : Peer → Peer
drop_client p = record p { client = none }

module _ (client : ℕ → Client) where
  -- The test of one entry in `isPeerConnected`.
  unfoldable pub is_peer_at : Bytes → Bool → Peer → Bool
  is_peer_at addr out p = elim p.client [
    | none ↦ false
    | some i ↦
        (if out then p.out_flag else (if p.out_flag then false else true))
        && (bytes_eq (client i).peer_addr addr || bytes_eq (client i).canon_peer_addr addr)
  ]

  -- `isPeerConnected`.
  unfoldable pub is_peer_connected : Bytes → Bool → List Peer → Bool
  unfolding is_peer_at
  is_peer_connected addr out [] = false
  is_peer_connected addr out (p ∷ ps) = is_peer_at addr out p || is_peer_connected addr out ps

  -- An entry of the first loop of `connectionClosed`: `resetClient` on the closed client, and on
  -- every other client with its address.
  unfoldable pub reset_client : ℕ → Peer → Peer
  reset_client i p = elim p.client [
    | none ↦ p
    | some j ↦
        if j == i || bytes_eq (client j).peer_addr (client i).peer_addr then drop_client p else p
  ]

  unfoldable pub reset_clients : ℕ → List Peer → List Peer
  reset_clients i [] = []
  reset_clients i (p ∷ ps) = reset_client i p ∷ reset_clients i ps

module _ (client : ℕ → Client) (i : ℕ) where
  -- The connections whose entries the first loop resets.
  unfoldable pub dropped_peers : List Peer → List ℕ
  dropped_peers [] = []
  dropped_peers (p ∷ ps) =
      let rest = dropped_peers ps in
      elim p.client [
        | none ↦ rest
        | some j ↦
            if j == i || bytes_eq (client j).peer_addr (client i).peer_addr then j ∷ rest else rest
      ]

-- The inner `for` of the second loop: it erases the first null entry; `none` if there is none.
unfoldable pub erase_first : List Peer → Option (List Peer)
erase_first [] = none
erase_first (p ∷ ps) =
    let later : Option (List Peer) = elim (erase_first ps) [
      | none ↦ none
      | some qs ↦ some (p ∷ qs)
    ] in
    elim p.client [ none ↦ some ps | some j ↦ later ]

-- `while (changed)`, with fuel for its rounds.
unfoldable pub erase_null : ℕ → List Peer → List Peer
erase_null zero ps = ps
erase_null (suc f) ps = elim (erase_first ps) [ none ↦ ps | some qs ↦ erase_null f qs ]

unfoldable pub close_peer : (ℕ → Client) → ℕ → List Peer → List Peer
close_peer client i ps = erase_null (length ps) (reset_clients client i ps)
