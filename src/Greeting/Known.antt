-- ===== src/Greeting/Known.antt =====
-- `getConnectedPeers` and `sendOtherPeers` of node/node.cpp: the peers that a node tells one of them.
use tcpserver_cpp_libuv_samp.Base.{
  ℕ, append_assoc, append-nil, ◌≡◌, refl, sym, ap, ◌∙◌, Bool, true, false, not, ◌&&◌, List, [], ◌∷◌,
  ◌++◌, Option, none, some, Bytes, bytes_eq, Bool-cases, inl, inr, if◌then◌else◌,
}
use tcpserver_cpp_libuv_samp.Base.Int.{is_zero}
use tcpserver_cpp_libuv_samp.Base.Outcome.{ok}
use tcpserver_cpp_libuv_samp.Dict.{Dict, insert}
use tcpserver_cpp_libuv_samp.Endpoint.{Endpoint, get_endpoint, parse_endpoint}
use tcpserver_cpp_libuv_samp.Message.{Message, serialize}
use tcpserver_cpp_libuv_samp.World.{
  Client, Peer, Node, Call, uv_fileno, Uv, World, M, pure, get_client, read_fd, call, ◌>>=◌, ◌>>◌,
}
use tcpserver_cpp_libuv_samp.Client.{
  is_offline, is_positive, has_descriptor, connected_on, is_connected, send_message,
}
use tcpserver_cpp_libuv_samp.Node.{
  get_node, collect_peer, collect_peers, send_endpoint, send_endpoints, send_other_peers,
}
use tcpserver_cpp_libuv_samp.Framing.Stream.{written}
use tcpserver_cpp_libuv_samp.Greeting.{
  IsOnline, IsOn, Does, is_up, SameView, has_stream, bind-Does, node-Does, call-Does,
  send_message-Does,
}

-- The endpoints of the peers that are up and have a canonical address, without duplicates.
abbrev pub known_of : Client → Dict ℕ → Dict ℕ
known_of c m =
    if is_up c && not (bytes_eq c.canon_peer_addr []) then insert c.canon_peer_addr 1 m else m

abbrev pub known_by : (ℕ → Client) → Option ℕ → Dict ℕ → Dict ℕ
known_by f none m = m
known_by f (some j) m = known_of (f j) m

abbrev pub known : (ℕ → Client) → List Peer → Dict ℕ → Dict ℕ
known f [] m = m
known f (p ∷ ps) m = known f ps (known_by f p.client m)

known_by-same :
    (f g : ℕ → Client) (o : Option ℕ) (m : Dict ℕ)
    → ((j : ℕ) → SameView (f j) (g j))
    → known_by g o m ≡ known_by f o m
known_by-same f g none m same = refl
known_by-same f g (some j) m same = rw ((same j).up, (same j).canon) refl

pub known-same :
    (f g : ℕ → Client) (ps : List Peer) (m : Dict ℕ)
    → ((j : ℕ) → SameView (f j) (g j))
    → known g ps m ≡ known f ps m
known-same f g [] m same = refl
known-same f g (p ∷ ps) m same =
    known-same f g ps (known_by g p.client m) same
    ∙ ap (known f ps) (known_by-same f g p.client m same)

-- What a peer at an address is told: each of the endpoints but its own.
abbrev pub told : Bytes → Dict ℕ → List Message
told addr [] = []
told addr ((key, one) ∷ m) =
    let e = parse_endpoint key in
    let rest = told addr m in
    if bytes_eq (get_endpoint e) addr then rest else Message.other_peer e.host e.port ∷ rest

-- A message behind others.
pub written_more :
    (b : Bytes) (m : Message) (ms : List Message)
    → (b ++ (serialize m ++ (b'\n' ∷ []))) ++ written ms ≡ b ++ written (m ∷ ms)
written_more b m ms =
    append_assoc b (serialize m ++ (b'\n' ∷ [])) (written ms)
    ∙ ap (λ x. b ++ x) (append_assoc (serialize m) (b'\n' ∷ []) (written ms))

module _ (uv : Uv) (online : IsOnline uv) {i h : ℕ} {n : Node} {f : ℕ → Client}
    {t : List Call} where
  has_descriptor-Does :
      (handle : ℕ) (b : Bytes) (w : World)
      → IsOn i h n f t b w
      → Does i h n f t (has_descriptor uv handle) w true b
  unfolding has_descriptor
  has_descriptor-Does handle b w s =
      bind-Does (call uv (uv_fileno handle))
        (λ res. read_fd uv handle >>= λ fd. pure (is_zero res && is_positive fd)) w _ b true b
        (call-Does uv (uv_fileno handle) b w (λ g u. refl) s)
        λ v r. (v, rw (online.files w.trace handle, online.descriptors v.trace handle) refl, r)

  connected_on-Does :
      (off : Bool) (o : Option ℕ) (b : Bytes) (w : World)
      → IsOn i h n f t b w
      → Does i h n f t (connected_on uv off o) w (if off then false else has_stream o) b
  unfolding connected_on
  connected_on-Does true none b w s = (w, refl, s)
  connected_on-Does false none b w s = (w, refl, s)
  connected_on-Does true (some handle) b w s = (w, refl, s)
  connected_on-Does false (some handle) b w s = has_descriptor-Does handle b w s

  is_connected-Does :
      (j : ℕ) (b : Bytes) (w : World)
      → IsOn i h n f t b w
      → Does i h n f t (is_connected uv j) w (is_up (f j)) b
  unfolding is_connected
  is_connected-Does j b w s =
      let c = w.client j in
      let (v, e, r) = connected_on-Does (is_offline c.state) c.stream b w s in
      (v, e ∙ ap (λ up. ok (up, v)) (s.views j).up, r)

  collect_peer-Does :
      (o : Option ℕ) (m : Dict ℕ) (b : Bytes) (w : World)
      → IsOn i h n f t b w
      → Does i h n f t (collect_peer uv o m) w (known_by f o m) b
  unfolding collect_peer
  collect_peer-Does none m b w s = (w, refl, s)
  collect_peer-Does (some j) m b w s =
      bind-Does (is_connected uv j)
        (λ on. get_client j >>= λ c.
          pure
            (if on && not (bytes_eq c.canon_peer_addr []) then insert c.canon_peer_addr 1 m else m))
        w (is_up (f j)) b (known_of (f j) m) b (is_connected-Does j b w s)
        λ v r. (v, rw (r.views j).canon refl, r)

  collect_peers-Does :
      (ps : List Peer) (m : Dict ℕ) (b : Bytes) (w : World)
      → IsOn i h n f t b w
      → Does i h n f t (collect_peers uv ps m) w (known f ps m) b
  unfolding collect_peers
  collect_peers-Does [] m b w s = (w, refl, s)
  collect_peers-Does (p ∷ ps) m b w s =
      bind-Does (collect_peer uv p.client m) (collect_peers uv ps) w (known_by f p.client m) b
        (known f (p ∷ ps) m) b (collect_peer-Does p.client m b w s)
        λ v r. collect_peers-Does ps (known_by f p.client m) b v r

  -- Connection `i` itself is found connected.
  self-Does :
      (b : Bytes) (w : World) → IsOn i h n f t b w → Does i h n f t (is_connected uv i) w true b
  self-Does b w s =
      let (v, e, r) = is_connected-Does i b w s in
      let up : is_up (w.client i) ≡ true = rw (s.online, s.stream) refl in
      (v, e ∙ ap (λ x. ok (x, v)) (sym (s.views i).up ∙ up), r)

  -- One endpoint, and then others.
  send_endpoint-Does :
      (e : Endpoint) (ms : List Message) (k : M (Unit {0})) (b : Bytes) (w : World)
      → IsOn i h n f t b w
      → ((d : Bytes) (v : World) → IsOn i h n f t d v → Does i h n f t k v tt (d ++ written ms))
      → Does i h n f t (send_endpoint uv i (f i).peer_addr e >> k) w tt (
          b
          ++ written (
              if bytes_eq (get_endpoint e) (f i).peer_addr
              then ms
              else Message.other_peer e.host e.port ∷ ms))
  unfolding send_endpoint
  send_endpoint-Does e ms k b w s rest =
      let m = Message.other_peer e.host e.port in
      elim (Bool-cases (bytes_eq (get_endpoint e) (f i).peer_addr)) [
        | inl own ↦ rw own (rest b w s)
        | inr other ↦
            let d = b ++ (serialize m ++ (b'\n' ∷ [])) in
            rw (other, ← written_more b m ms)
              (bind-Does (send_message uv i m) (λ _. k) w tt d tt (d ++ written ms)
                (send_message-Does uv online m b w s) (rest d))
      ]

  send_endpoints-Does :
      (m : Dict ℕ) (b : Bytes) (w : World)
      → IsOn i h n f t b w
      → Does i h n f t (send_endpoints uv i m) w tt (b ++ written (told (f i).peer_addr m))
  unfolding send_endpoints
  send_endpoints-Does [] b w s = (w, refl, rw (append-nil b) s)
  send_endpoints-Does ((key, one) ∷ m) b w s =
      let e = parse_endpoint key in
      bind-Does (is_connected uv i)
        (λ on. get_client i >>= λ c.
          if on then (send_endpoint uv i c.peer_addr e >> send_endpoints uv i m) else pure tt)
        w true b tt _ (self-Does b w s)
        λ v r. rw (r.views i).addr (
          send_endpoint-Does e (told (f i).peer_addr m) (send_endpoints uv i m) b v r
            (send_endpoints-Does m))

  pub send_other_peers-Does :
      (b : Bytes) (w : World)
      → IsOn i h n f t b w
      → Does i h n f t
          (send_other_peers uv i)
          w
          tt
          (b ++ written (told (f i).peer_addr (known f n.peers [])))
  unfolding send_other_peers
  send_other_peers-Does b w s =
      let m = known f n.peers [] in
      bind-Does get_node (λ d. collect_peers uv d.peers [] >>= send_endpoints uv i) w n b tt _
        (node-Does b w s)
        λ v r.
          bind-Does (collect_peers uv n.peers []) (send_endpoints uv i) v m b tt _
            (collect_peers-Does n.peers [] b v r) (send_endpoints-Does m b)
