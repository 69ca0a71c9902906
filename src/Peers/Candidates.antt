-- ===== src/Peers/Candidates.antt =====
-- `addOutPeerCandidate` of node/node.cpp, and the counts of a candidate.
use tcpserver_cpp_libuv_samp.Base.{
  ℕ, ◌+◌, ◌≤◌, ◌≡◌, refl, Option, none, some, arith, Bytes, bytes_eq, All, Option-cases, inl, inr,
  if◌then◌else◌,
}
use tcpserver_cpp_libuv_samp.Base.Int.{ℤ}
use tcpserver_cpp_libuv_samp.Dict.{Dict, lookup, insert-All, lookup-All, lookup-insert}
use tcpserver_cpp_libuv_samp.World.{PeerCandidate}
use tcpserver_cpp_libuv_samp.Peers.{new_candidate, candidate_key, add_out_peer_candidate}

-- The candidate after the call, from the one before it.
abbrev pub added : Bytes → ℤ → ℕ → Option PeerCandidate → PeerCandidate
added host port to_try none = record {
  host = host;
  port = port;
  to_try = to_try;
  conn_try_count = 0;
  connected_count = 0;
}
added host port to_try (some c) = record c { to_try = to_try + c.conn_try_count }

-- The trials and the connections so far, and the endpoint, of a candidate that may not be there yet.
abbrev pub counts_so_far : Option PeerCandidate → ℕ × ℕ
counts_so_far none = (0, 0)
counts_so_far (some c) = (c.conn_try_count, c.connected_count)

abbrev pub endpoint_of : Bytes → ℤ → Option PeerCandidate → Bytes × ℤ
endpoint_of host port none = (host, port)
endpoint_of host port (some c) = (c.host, c.port)

-- What the table has under any key after the call.
pub lookup-added :
    (host : Bytes) (port : ℤ) (to_try : ℕ) (cands : Dict PeerCandidate) (k : Bytes)
    → lookup k (add_out_peer_candidate host port to_try cands) ≡ (
        if bytes_eq (candidate_key host port) k
        then some (added host port to_try (lookup (candidate_key host port) cands))
        else lookup k cands)
unfolding add_out_peer_candidate new_candidate
lookup-added host port to_try cands k =
    elim (Option-cases (lookup (candidate_key host port) cands)) [
      | inl e ↦
          rw (e, add_out_peer_candidate)
            (lookup-insert (candidate_key host port) k (new_candidate host port to_try) cands)
      | inr (c, e) ↦
          rw (e, add_out_peer_candidate)
            (lookup-insert (candidate_key host port) k
              (record c { to_try = to_try + c.conn_try_count }) cands)
    ]

-- After the call there is a candidate of that endpoint which may be tried `to_try` more times than it
-- was tried; it has the counts of the trials and connections of the one before, or none where there
-- was none, and keeps its host and port. Every other candidate stays as it was.
pub lookup-add_out_peer_candidate :
    (host : Bytes) (port : ℤ) (to_try : ℕ) (cands : Dict PeerCandidate)
    → let key = candidate_key host port in
      let before = lookup key cands in
      (d : PeerCandidate) × ((k : Bytes)
        → lookup k (add_out_peer_candidate host port to_try cands)
          ≡ (if bytes_eq key k then some d else lookup k cands))
      × (d.to_try ≡ to_try + (counts_so_far before).0)
      × ((d.conn_try_count, d.connected_count) ≡ counts_so_far before)
      × ((d.host, d.port) ≡ endpoint_of host port before)
lookup-add_out_peer_candidate host port to_try cands =
    let key = candidate_key host port in
    let found = lookup-added host port to_try cands in
    elim (Option-cases (lookup key cands)) [
      | inl e ↦ (
        added host port to_try (lookup key cands),
        found,
        rw e (omega arith),
        rw e refl,
        rw e refl,
      )
      | inr (c, e) ↦
          (added host port to_try (lookup key cands), found, rw e refl, rw e refl, rw e refl)
    ]

-- A candidate was tried at most as often as it may be, and connected at most as often as tried.
pub record IsBounded (c : PeerCandidate) : Type 0 where
  pub tries : c.conn_try_count ≤ c.to_try
  pub connects : c.connected_count ≤ c.conn_try_count
  pub allowed : 1 ≤ c.to_try

abbrev pub AllBounded : Dict PeerCandidate → Type 0
AllBounded = All (λ (e : Bytes × PeerCandidate). IsBounded e.1)

-- A call that allows one more trial at least keeps the bounds of all candidates.
pub add_out_peer_candidate-AllBounded :
    (host : Bytes) (port : ℤ) (to_try : ℕ) (cands : Dict PeerCandidate)
    → 1 ≤ to_try
    → AllBounded cands
    → AllBounded (add_out_peer_candidate host port to_try cands)
unfolding add_out_peer_candidate new_candidate
add_out_peer_candidate-AllBounded host port to_try cands h b =
    elim (Option-cases (lookup (candidate_key host port) cands)) [
      | inl e ↦
          rw (e, add_out_peer_candidate) (insert-All (λ e. IsBounded e.1) _ _ cands (omega arith) b)
      | inr (c, e) ↦
          let old = lookup-All (λ e. IsBounded e.1) _ c cands b e in
          rw (e, add_out_peer_candidate) (insert-All (λ e. IsBounded e.1) _ _ cands (omega arith) b)
    ]
