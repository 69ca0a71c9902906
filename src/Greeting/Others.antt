-- ===== src/Greeting/Others.antt =====
-- What a node tells a peer of the others (`sendOtherPeers` of node/node.cpp).
use tcpserver_cpp_libuv_samp.Base.{
  ℕ, ◌==◌, ◌≡◌, Bool, false, not, ◌&&◌, ◌||◌, List, [], ◌∷◌, Option, none, some, Bytes, bytes_eq,
}
use tcpserver_cpp_libuv_samp.World.Steps.{writes_to}
use tcpserver_cpp_libuv_samp.Dict.{Dict}
use tcpserver_cpp_libuv_samp.World.{Client, Peer, Node, Call, World}
use tcpserver_cpp_libuv_samp.Greeting.{is_up}

-- A peer that is up makes the endpoint known.
abbrev pub reports : (ℕ → Client) → Bytes → Option ℕ → Bool
reports f k none = false
reports f k (some j) =
    is_up (f j) && (not (bytes_eq (f j).canon_peer_addr []) && bytes_eq (f j).canon_peer_addr k)

abbrev pub is_reported : (ℕ → Client) → Bytes → List Peer → Bool
is_reported f k [] = false
is_reported f k (p ∷ ps) = let later = is_reported f k ps in reports f k p.client || later

-- Nothing has been written to the other handles.
abbrev pub IsQuiet : ℕ → List Call → List Call → Type 0
IsQuiet h t u = (g : ℕ) → (h == g) ≡ false → writes_to g u ≡ writes_to g t
