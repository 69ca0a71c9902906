-- ===== src/Greeting.antt =====
-- A node talks to one of its peers (`sendOtherPeers` of node/node.cpp, `process` and `onTimer` of
-- node/peer_conn.cpp), with a libuv that takes the writes: what is written to the peer's handle.
pub mod Known
pub mod Others
pub mod First
pub mod Reply
use tcpserver_cpp_libuv_samp.Base.{
  ℕ, append_assoc, append-nil, ◌≡◌, refl, sym, ap, ◌∙◌, ◌==◌, ==_iff, Bool, true, false, not, List,
  [], ◌∷◌, ◌++◌, Option, none, some, Bytes, Bool-cases, inl, inr, arith, if◌then◌else◌,
}
use tcpserver_cpp_libuv_samp.Base.Int.{is_zero}
use tcpserver_cpp_libuv_samp.Base.Outcome.{ok}
use tcpserver_cpp_libuv_samp.World.Steps.{bind_step, set_at_self, writes_to}
use tcpserver_cpp_libuv_samp.Message.{Message, serialize}
use tcpserver_cpp_libuv_samp.World.{
  State, sending, Client, Node, node_app, Call, uv_write, uv_fileno, Uv, World, M, get_app, set_at,
  call, new_handle, put_client, ◌>>=◌,
}
use tcpserver_cpp_libuv_samp.Client.{
  is_offline, is_shut, is_positive, has_descriptor, connected_on, is_connected, send_message,
}
use tcpserver_cpp_libuv_samp.Node.{get_node}
use tcpserver_cpp_libuv_samp.Client.Closing.{sent_world, send_message-sent}

-- libuv takes every write, and every handle has a descriptor.
pub record IsOnline (uv : Uv) : Type 0 where
  pub writes :
      (calls : List Call) (handle : ℕ) (b : Bytes)
      → is_zero (uv.result calls (uv_write handle b)) ≡ true
  pub files : (calls : List Call) (handle : ℕ) → is_zero (uv.result calls (uv_fileno handle)) ≡ true
  pub descriptors : (calls : List Call) (handle : ℕ) → is_positive (uv.fd calls handle) ≡ true

abbrev pub has_stream : Option ℕ → Bool
has_stream none = false
has_stream (some h) = true

-- Whether a connection is connected, where libuv has a descriptor for it.
abbrev pub is_up : Client → Bool
is_up c = if is_offline c.state then false else has_stream c.stream

-- What the other peers learn of a connection.
pub record SameView (c d : Client) : Type 0 where
  pub up : is_up d ≡ is_up c
  pub canon : d.canon_peer_addr ≡ c.canon_peer_addr
  pub addr : d.peer_addr ≡ c.peer_addr

SameView-trans : {c d e : Client} → SameView c d → SameView d e → SameView c e
SameView-trans p q = record { up = q.up ∙ p.up; canon = q.canon ∙ p.canon; addr = q.addr ∙ p.addr }

SameView-set_at :
    (f : ℕ → Client) (i : ℕ) (c : Client)
    → SameView (f i) c
    → (j : ℕ) → SameView (f j) (set_at f i c j)
SameView-set_at f i c v j = elim (Bool-cases (i == j)) [
  | inl q ↦ let same : i ≡ j = ground arith in rw (q, ← same) v
  | inr q ↦ rw q (record { up = refl; canon = refl; addr = refl })
]

-- Connection `i` of a node is up on a handle: the table as others see it, the calls before, and the
-- bytes written to the handle since.
pub record IsOn (i h : ℕ) (n : Node) (f : ℕ → Client) (t : List Call) (b : Bytes) (w : World)
    : Type 0 where
  pub app : w.app ≡ node_app n
  pub stream : (w.client i).stream ≡ some h
  pub online : is_offline (w.client i).state ≡ false
  pub views : (j : ℕ) → SameView (f j) (w.client j)
  pub sent : writes_to h w.trace ≡ writes_to h t ++ b
  pub others : (g : ℕ) → (h == g) ≡ false → writes_to g w.trace ≡ writes_to g t

pub begin-IsOn :
    (i h : ℕ) (n : Node) (w : World)
    → w.app ≡ node_app n
    → (w.client i).stream ≡ some h
    → is_offline (w.client i).state ≡ false
    → IsOn i h n w.client w.trace [] w
begin-IsOn i h n w a p e = record {
  app = a;
  stream = p;
  online = e;
  views = λ j. record { up = refl; canon = refl; addr = refl };
  sent = sym (append-nil (writes_to h w.trace));
  others = λ g q. refl;
}

-- A step ends without a fault, with a value, and has written the bytes since.
abbrev pub Does :
    {A : Type 0} (i h : ℕ) (n : Node) (f : ℕ → Client) (t : List Call)
    → M A
    → World
    → A
    → Bytes
    → Type 0
Does i h n f t m w a b = (v : World) × (m w ≡ ok (a, v)) × IsOn i h n f t b v

is_offline-shut : (s : State) → is_offline s ≡ false → is_shut s ≡ false
unfolding is_offline is_shut
is_offline-shut State.undefined e = cc
is_offline-shut State.not_connected e = cc
is_offline-shut State.connecting e = cc
is_offline-shut State.closing e = cc
is_offline-shut State.closed e = cc
is_offline-shut State.connected e = refl
is_offline-shut State.accepted e = refl
is_offline-shut State.sending e = refl
is_offline-shut State.sent e = refl
is_offline-shut State.receiving e = refl
is_offline-shut State.received e = refl

module _ {i h : ℕ} {n : Node} {f : ℕ → Client} {t : List Call} where
  pub bind-Does :
      {A B : Type 0} (m : M A) (k : A → M B) (w : World) (a : A) (b : Bytes) (x : B) (d : Bytes)
      → Does i h n f t m w a b
      → ((v : World) → IsOn i h n f t b v → Does i h n f t (k a) v x d)
      → Does i h n f t (m >>= k) w x d
  bind-Does m k w a b x d (v, e, s) rest = let (u, q, r) = rest v s in (u, bind_step m k w e ∙ q, r)

  -- A write of the connection object that leaves what others see.
  pub put-IsOn :
      (c : Client) (b : Bytes) (w : World)
      → IsOn i h n f t b w
      → c.stream ≡ some h
      → is_offline c.state ≡ false
      → c.canon_peer_addr ≡ (w.client i).canon_peer_addr
      → c.peer_addr ≡ (w.client i).peer_addr
      → IsOn i h n f t b (record w { client = set_at w.client i c })
  put-IsOn c b w s hooked on canon addr =
      let same : SameView (w.client i) c = record {
        up = rw (hooked, on, s.online, s.stream) refl;
        canon = canon;
        addr = addr;
      } in
      record {
        app = s.app;
        stream = ap (λ (d : Client). d.stream) (set_at_self w.client i c) ∙ hooked;
        online = ap (λ (d : Client). is_offline d.state) (set_at_self w.client i c) ∙ on;
        views = λ j. SameView-trans (s.views j) (SameView-set_at w.client i c same j);
        sent = s.sent;
        others = s.others;
      }

  -- A call that writes nothing.
  pub call-IsOn :
      (c : Call) (b : Bytes) (w : World)
      → ((g : ℕ) (u : List Call) → writes_to g (c ∷ u) ≡ writes_to g u)
      → IsOn i h n f t b w
      → IsOn i h n f t b (record w { trace = c ∷ w.trace })
  call-IsOn c b w silent s = record {
    app = s.app;
    stream = s.stream;
    online = s.online;
    views = s.views;
    sent = silent h w.trace ∙ s.sent;
    others = λ g e. silent g w.trace ∙ s.others g e;
  }

  pub call-Does :
      (uv : Uv) (c : Call) (b : Bytes) (w : World)
      → ((g : ℕ) (u : List Call) → writes_to g (c ∷ u) ≡ writes_to g u)
      → IsOn i h n f t b w
      → Does i h n f t (call uv c) w (uv.result w.trace c) b
  call-Does uv c b w silent s = (_, refl, call-IsOn c b w silent s)

  pub handle-IsOn :
      (k : ℕ) (b : Bytes) (w : World)
      → IsOn i h n f t b w
      → IsOn i h n f t b (record w { next_handle = k })
  handle-IsOn k b w s = record {
    app = s.app;
    stream = s.stream;
    online = s.online;
    views = s.views;
    sent = s.sent;
    others = s.others;
  }

  pub node-Does : (b : Bytes) (w : World) → IsOn i h n f t b w → Does i h n f t get_node w n b
  node-Does b w s = (w, rw s.app refl, s)

  pub app-Does :
      (b : Bytes) (w : World) → IsOn i h n f t b w → Does i h n f t get_app w (node_app n) b
  app-Does b w s = (w, ap (λ a. ok (a, w)) s.app, s)

module _ (uv : Uv) (online : IsOnline uv) {i h : ℕ} {n : Node} {f : ℕ → Client}
    {t : List Call} where
  pub send_message-Does :
      (m : Message) (b : Bytes) (w : World)
      → IsOn i h n f t b w
      → Does i h n f t (send_message uv i m) w tt (b ++ (serialize m ++ (b'\n' ∷ [])))
  unfolding is_offline
  send_message-Does m b w s =
      let line = serialize m ++ (b'\n' ∷ []) in
      let c = record (w.client i) { state = sending } in
      let self : (h == h) ≡ true = (==_iff h h).1 refl in
      let put = put-IsOn c b w s s.stream refl refl refl in
      (
        sent_world uv i h m w,
        send_message-sent uv i h m w (is_offline-shut (w.client i).state s.online) s.stream
            (online.writes w.trace h line),
        record {
          app = s.app;
          stream = put.stream;
          online = put.online;
          views = put.views;
          sent = rw self (ap (λ x. x ++ line) s.sent ∙ append_assoc (writes_to h t) b line);
          others = λ g e. rw e (s.others g e);
        },
      )
