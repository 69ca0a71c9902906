-- ===== src/Node/Dialled.antt =====
-- `tryOutConnection` of node/node.cpp on each branch, and what it leaves of the peers before it.
use tcpserver_cpp_libuv_samp.Base.{
  ℕ, suc, ◌<◌, ◌≤◌, ◌==◌, ◌≡◌, refl, ap, sym, ◌∙◌, true, false, ◌||◌, List, [], ◌∷◌, ◌++◌,
  append_assoc, append-nil, Option-cases, some, Bytes, arith, IsIn, append-IsIn, inl, inr, bytes_eq,
  bytes_eq_iff,
}
use tcpserver_cpp_libuv_samp.Base.Int.{ℤ, pos}
use tcpserver_cpp_libuv_samp.Base.Outcome.{ok}
use tcpserver_cpp_libuv_samp.World.Steps.{bind_step, set_at_self, writes_to}
use tcpserver_cpp_libuv_samp.World.{
  connecting, Client, Peer, Node, node_app, uv_tcp_init, uv_tcp_connect, Uv, World, set_at,
}
use tcpserver_cpp_libuv_samp.Peers.{candidate_key, is_peer_at, is_peer_connected}
use tcpserver_cpp_libuv_samp.Client.{new_client_out, new_peer_client_out, is_in_use, connect}
use tcpserver_cpp_libuv_samp.Node.{get_node, is_self, push_peer, try_out_connection}
use tcpserver_cpp_libuv_samp.Node.Trying.{get_node-node}

-- Every entry refers to a connection that was made.
abbrev pub AreMade : ℕ → List Peer → Type 0
AreMade next ps = (p : Peer) (i : ℕ) → IsIn p ps → p.client ≡ some i → i < next

-- A world with a node.
pub record HasNode (n : Node) (w : World) : Type 0 where
  pub app : w.app ≡ node_app n
  pub made : AreMade w.next_client n.peers

-- A later world of a node: entries and connections are only added, and nothing is written.
pub record Grown (w v : World) (n m : Node) : Type 0 where
  pub name : m.name ≡ n.name
  pub extra : List Peer
  pub peers : m.peers ≡ n.peers ++ extra
  pub clients : w.next_client ≤ v.next_client
  pub same : (j : ℕ) → j < w.next_client → v.client j ≡ w.client j
  pub quiet : (g : ℕ) → writes_to g v.trace ≡ writes_to g w.trace

pub Grown-refl : (w : World) (n : Node) → Grown w w n n
Grown-refl w n = record {
  name = refl;
  extra = [];
  peers = sym (append-nil n.peers);
  clients = omega arith;
  same = λ j lt. refl;
  quiet = λ g. refl;
}

pub Grown-trans : {w v u : World} {n m k : Node} → Grown w v n m → Grown v u m k → Grown w u n k
Grown-trans {n = n} g f = record {
  name = f.name ∙ g.name;
  extra = g.extra ++ f.extra;
  peers = f.peers ∙ ap (λ ps. ps ++ f.extra) g.peers ∙ append_assoc n.peers g.extra f.extra;
  clients = omega (arith, g.clients, f.clients);
  same = λ j lt. f.same j (omega (arith, g.clients)) ∙ g.same j lt;
  quiet = λ g'. f.quiet g' ∙ g.quiet g';
}

-- Entries that are added do not hide a connection.
is_peer_connected-append :
    (f : ℕ → Client) (key : Bytes) (ps qs : List Peer)
    → is_peer_connected f key true (ps ++ qs)
      ≡ (is_peer_connected f key true ps || is_peer_connected f key true qs)
unfolding is_peer_connected
is_peer_connected-append f key [] qs = refl
is_peer_connected-append f key (p ∷ ps) qs = ground (arith, is_peer_connected-append f key ps qs)

-- Two states of a connection with the same addresses.
abbrev pub SameAddresses : Client → Client → Type 0
SameAddresses c d = (d.peer_addr ≡ c.peer_addr) × (d.canon_peer_addr ≡ c.canon_peer_addr)

is_peer_at-same :
    (f g : ℕ → Client) (key : Bytes) (p : Peer)
    → ((i : ℕ) → p.client ≡ some i → SameAddresses (f i) (g i))
    → is_peer_at g key true p ≡ is_peer_at f key true p
unfolding is_peer_at
is_peer_at-same f g key p same = elim (Option-cases p.client) [
  | inl e ↦ rw e refl
  | inr (i, e) ↦ let (addr, canon) = same i e in rw (e, addr, canon) refl
]

pub is_peer_connected-same :
    (f g : ℕ → Client) (next : ℕ) (key : Bytes) (ps : List Peer)
    → ((j : ℕ) → j < next → SameAddresses (f j) (g j))
    → AreMade next ps
    → is_peer_connected g key true ps ≡ is_peer_connected f key true ps
unfolding is_peer_connected
is_peer_connected-same f g next key [] same made = refl
is_peer_connected-same f g next key (p ∷ ps) same made =
    let first = is_peer_at-same f g key p (λ i e. same i (made p i (inl refl) e)) in
    rw (first, is_peer_connected-same f g next key ps same (λ q i h e. made q i (inr h) e)) refl

pub Grown-connected :
    (w v : World) (n m : Node) (key : Bytes)
    → HasNode n w
    → Grown w v n m
    → is_peer_connected w.client key true n.peers ≡ true
    → is_peer_connected v.client key true m.peers ≡ true
Grown-connected w v n m key s g h =
    let addresses : (j : ℕ) → j < w.next_client → SameAddresses (w.client j) (v.client j) = λ j lt.
      (
        ap (λ (c : Client). c.peer_addr) (g.same j lt),
        ap (λ (c : Client). c.canon_peer_addr) (g.same j lt),
      ) in
    let same =
      is_peer_connected-same w.client v.client w.next_client key n.peers addresses s.made in
    let both = is_peer_connected-append v.client key n.peers g.extra in
    rw g.peers (ground (arith, same, both, h))

module _ (uv : Uv) (host : Bytes) (port : ℤ) (n : Node) (w : World) (s : HasNode n w) where
  abbrev dialling : Client
  dialling = record (new_peer_client_out host port) {
    state = connecting;
    send_counter = 0;
    stream = some w.next_handle;
  }

  abbrev pub with_peer : Node
  with_peer = push_peer (some w.next_client) true n

  -- The world in which the new peer is connecting.
  abbrev pub dial_world : World
  dial_world = record w {
    client =
        set_at (set_at w.client w.next_client (new_peer_client_out host port)) w.next_client
          dialling;
    next_client = suc w.next_client;
    next_handle = suc w.next_handle;
    app = node_app with_peer;
    trace = uv_tcp_connect w.next_handle host port ∷ uv_tcp_init w.next_handle ∷ w.trace;
  }

  abbrev pub dial_result : ℤ
  dial_result =
      uv.result (uv_tcp_init w.next_handle ∷ w.trace) (uv_tcp_connect w.next_handle host port)

  pub self_not_dialled :
      is_self n.name host port ≡ true → try_out_connection uv host port w ≡ ok (pos 0, w)
  unfolding try_out_connection
  self_not_dialled own = bind_step get_node _ w (get_node-node w n s.app) ∙ rw own refl

  pub other_dialled :
      is_self n.name host port ≡ false
      → try_out_connection uv host port w ≡ ok (dial_result, dial_world)
  unfolding try_out_connection connect is_in_use new_peer_client_out new_client_out
  other_dialled other =
      bind_step get_node _ w (get_node-node w n s.app)
      ∙ (let self = set_at_self w.client w.next_client (new_peer_client_out host port) in
          rw (other, s.app, self, self) refl)

  pub dial-HasNode : HasNode with_peer dial_world
  unfolding push_peer
  dial-HasNode = record {
    app = refl;
    made = λ p i q e.
        elim (append-IsIn p n.peers (record { client = some w.next_client; out_flag = true } ∷ [])
          q) [
            | inl old ↦ let lt = s.made p i old e in omega arith
            | inr new ↦ elim new [
              | inl same ↦
                  let client : some w.next_client ≡ some i = ap (λ (r : Peer). r.client) same ∙ e in
                  ground arith
              | inr more ↦ absurd more
            ]
          ];
  }

  pub dial-Grown : Grown w dial_world n with_peer
  unfolding push_peer
  dial-Grown = record {
    name = refl;
    extra = record { client = some w.next_client; out_flag = true } ∷ [];
    peers = refl;
    clients = omega arith;
    quiet = λ g. refl;
    same = λ j lt. let other : (w.next_client == j) ≡ false = ground arith in rw other refl;
  }

  -- The new entry is found under the candidate's key.
  pub dial-connected :
      is_peer_connected dial_world.client (candidate_key host port) true with_peer.peers ≡ true
  unfolding push_peer is_peer_connected is_peer_at new_peer_client_out new_client_out
  dial-connected =
      let f = dial_world.client in
      let self =
        set_at_self (set_at w.client w.next_client (new_peer_client_out host port)) w.next_client
          dialling in
      let key = candidate_key host port in
      let both =
        is_peer_connected-append f key n.peers
          (record { client = some w.next_client; out_flag = true } ∷ []) in
      let found : bytes_eq (f w.next_client).peer_addr key ≡ true =
        rw self ((bytes_eq_iff key key).1 refl) in
      rw (both, found) (ground arith)
