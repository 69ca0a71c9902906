-- ===== src/Session.antt =====
-- A session of `NetClientOut` (lib/net_client.cpp) with a server that answers each of its messages:
-- the connection is made, and then in rounds a write ends and one line comes in.
pub mod Closed
pub mod Received
pub mod Pings
pub mod Whole
pub mod Served
use tcpserver_cpp_libuv_samp.World.Steps.{set_at_self, bind_step}
use tcpserver_cpp_libuv_samp.Base.{
  ℕ, zero, suc, ◌+◌, ◌≤◌, ◌<◌, ◌≡◌, refl, sym, ap, ◌∙◌, ◌==◌, ==_iff, Bool, true, false, List, [],
  ◌∷◌, ◌++◌, Option, none, some, Bytes, codes, arith, length, take, drop, All, append-nil, leb,
  if◌then◌else◌,
}
use tcpserver_cpp_libuv_samp.Base.Int.{ℤ, pos, negsuc, is_zero, is_negative}
use tcpserver_cpp_libuv_samp.Base.Outcome.{ok}
use tcpserver_cpp_libuv_samp.Text.Split.{take-length, drop-length}
use tcpserver_cpp_libuv_samp.Message.{Message, serialize}
use tcpserver_cpp_libuv_samp.Message.RoundTrip.{IsSendable}
use tcpserver_cpp_libuv_samp.World.{
  State, connected, sending, receiving, received, client_out, Client, App, client_app, get_app,
  Call, uv_write, uv_read_start, uv_is_closing, uv_close, Uv, World, M, set_at, get_client,
  put_client, pure, ◌>>=◌, ◌>>◌,
}
use tcpserver_cpp_libuv_samp.App.{get_name}
use tcpserver_cpp_libuv_samp.Client.{may_read, is_shut, do_read, send_message, close, close_stream}
use tcpserver_cpp_libuv_samp.Client.Closing.{sent_world, send_message-sent}
use tcpserver_cpp_libuv_samp.Server.{client_message_received}
use tcpserver_cpp_libuv_samp.Events.{
  may_end_write, ping_text, process_out_in, process_as, process, on_write, on_read, append_received,
  process_received_buffer, handle_parsed, message_received, message_received_by,
}
use tcpserver_cpp_libuv_samp.Framing.Receive.{buffer}
use tcpserver_cpp_libuv_samp.Framing.Stream.{
  written, handle_messages, process_received_buffer-written,
}

-- libuv takes every write to a handle and every start of its reads, and closes it when asked. A start
-- of reads that is on already succeeds in libuv before 1.38; later versions answer UV_EALREADY.
pub record Works (uv : Uv) (h : ℕ) : Type 0 where
  pub writes : (calls : List Call) (b : Bytes) → is_zero (uv.result calls (uv_write h b)) ≡ true
  pub reads : (calls : List Call) → is_negative (uv.result calls (uv_read_start h)) ≡ false
  pub stays : (calls : List Call) → is_zero (uv.result calls (uv_is_closing h)) ≡ true

-- The line of a message.
abbrev pub line : Message → Bytes
line m = serialize m ++ (b'\n' ∷ [])

-- A round: the last write ends, and the line of one message comes in.
unfoldable pub round : Uv → ℕ → Message → M (Unit {0})
round uv i m = do
  on_write uv i (pos 0)
  on_read uv i (pos (suc (length (serialize m)))) (some (line m))

unfoldable pub rounds : Uv → ℕ → List Message → M (Unit {0})
rounds uv i [] = pure tt
rounds uv i (m ∷ ms) = round uv i m >> rounds uv i ms

-- A client application, with the connection as given and the calls so far.
pub record IsAt (i : ℕ) (c : Client) (calls : List Call) (w : World) : Type 0 where
  pub client : w.client i ≡ c
  pub app : w.app ≡ client_app
  pub trace : w.trace ≡ calls
  pub known : i < w.next_client

-- A step ends without a fault, with the connection and the calls as given.
abbrev pub Ends : ℕ → M (Unit {0}) → World → Client → List Call → Type 0
Ends i m w c calls = (v : World) × (m w ≡ ok (tt, v)) × IsAt i c calls v

module _ (uv : Uv) (i h : ℕ) (works : Works uv h) where
  pub put-IsAt :
      (c d : Client) (t : List Call) (w : World)
      → IsAt i c t w
      → IsAt i d t (record w { client = set_at w.client i d })
  put-IsAt c d t w s = record {
    client = set_at_self w.client i d;
    app = s.app;
    trace = s.trace;
    known = s.known;
  }

  pub then-Ends :
      (m n : M (Unit {0})) (w : World) (c d : Client) (t u : List Call)
      → Ends i m w c t
      → ((v : World) → IsAt i c t v → Ends i n v d u)
      → Ends i (m >> n) w d u
  then-Ends m n w c d t u (v, e, s) rest =
      let (x, q, r) = rest v s in (x, bind_step m (λ _. n) w e ∙ q, r)

  -- A read of the connection object, a write of it, and the rest.
  pub update-Ends :
      (f : Client → Client) (k : Client → M (Unit {0})) (w : World) (c d : Client) (t u : List Call)
      → IsAt i c t w
      → ((v : World) → IsAt i (f c) t v → Ends i (k c) v d u)
      → Ends i (get_client i >>= λ b. put_client i (f b) >> k b) w d u
  update-Ends f k w c d t u s rest =
      rw s.client (rest (record w { client = set_at w.client i (f c) }) (put-IsAt c (f c) t w s))

  -- The world in which libuv has taken the start of the reads.
  abbrev read_world : World → World
  read_world w = record w {
    client = set_at w.client i (record (w.client i) { state = receiving });
    trace = uv_read_start h ∷ w.trace;
  }

  do_read-reads :
      (w : World)
      → may_read (w.client i).state ≡ true
      → (w.client i).stream ≡ some h
      → do_read uv i w ≡ ok (tt, read_world w)
  unfolding do_read
  do_read-reads w e p = rw (e, p, works.reads w.trace)

  pub do_read-Ends :
      (c : Client) (t : List Call) (w : World)
      → IsAt i c t w
      → may_read c.state ≡ true
      → c.stream ≡ some h
      → Ends i (do_read uv i) w (record c { state = receiving }) (uv_read_start h ∷ t)
  do_read-Ends c t w s e p = (
    read_world w,
    do_read-reads w (rw s.client e) (rw s.client p),
    record {
      client =
          set_at_self w.client i _ ∙ ap (λ (b : Client). record b { state = receiving }) s.client;
      app = s.app;
      trace = ap (◌∷◌ (uv_read_start h)) s.trace;
      known = s.known;
    },
  )

  pub send_message-Ends :
      (c : Client) (t : List Call) (m : Message) (w : World)
      → IsAt i c t w
      → is_shut c.state ≡ false
      → c.stream ≡ some h
      → Ends i (send_message uv i m) w (record c { state = sending }) (uv_write h (line m) ∷ t)
  send_message-Ends c t m w s e p = (
    sent_world uv i h m w,
    send_message-sent uv i h m w (rw s.client e) (rw s.client p) (works.writes w.trace (line m)),
    record {
      client =
          set_at_self w.client i _ ∙ ap (λ (b : Client). record b { state = sending }) s.client;
      app = s.app;
      trace = ap (◌∷◌ (uv_write h (line m))) s.trace;
      known = s.known;
    },
  )

  pub process-Ends :
      (c d : Client) (t u : List Call) (w : World)
      → IsAt i c t w
      → c.kind ≡ client_out
      → Ends i (process_out_in uv c.state i) w d u
      → Ends i (process uv i) w d u
  unfolding process process_as
  process-Ends c d t u w s k r = rw (s.client, k) r

  pub app-Ends :
      (k : App → M (Unit {0})) (w : World) (c d : Client) (t u : List Call)
      → IsAt i c t w
      → Ends i (k client_app) w d u
      → Ends i (get_app >>= k) w d u
  app-Ends k w c d t u s (v, e, q) = (v, ap (λ a. k a w) s.app ∙ e, q)

-- The connection in a state, with a count of its writes and the bytes that it has received.
abbrev pub conn : ℕ → Client → State → ℕ → Bytes → Client
conn h base state count bytes = record base {
  kind = client_out;
  state = state;
  stream = some h;
  send_counter = count;
  receive_buffer = bytes;
}
