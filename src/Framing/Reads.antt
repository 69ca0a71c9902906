-- ===== src/Framing/Reads.antt =====
-- The receive loop of lib/net_client.cpp over two reads, and over a line with a bad number.
use tcpserver_cpp_libuv_samp.World.Steps.{set_at_self, bind_fault}
use tcpserver_cpp_libuv_samp.Base.{
  ℕ, suc, ◌<◌, ◌≤◌, ◌≡◌, ap, sym, ◌∙◌, List, ◌∷◌, ◌++◌, arith, Bytes, codes, bytes_eq, length,
}
use tcpserver_cpp_libuv_samp.Base.Outcome.{ok, fault, Fault}
use tcpserver_cpp_libuv_samp.Text.{stoi, words}
use tcpserver_cpp_libuv_samp.Text.Split.{Lacks}
use tcpserver_cpp_libuv_samp.Message.{parse_message, parse_other_peer}
use tcpserver_cpp_libuv_samp.World.{Client, Uv, World, lift, set_at, ◌>>=◌}
use tcpserver_cpp_libuv_samp.Events.{process_line, handle_parsed, process_received_buffer, drain}
use tcpserver_cpp_libuv_samp.Framing.{lines, rest, lines-append, lines_first}
use tcpserver_cpp_libuv_samp.Framing.Receive.{buffer, consumed, deliver, drain-deliver, drain-rest}

-- The world in which a read has put bytes behind those of the buffer.
abbrev pub with_bytes : Bytes → ℕ → World → World
with_bytes b i w = record w {
  client =
      set_at w.client i (record (w.client i) { receive_buffer = (w.client i).receive_buffer ++ b });
}

module _ (uv : Uv) (i : ℕ) where
  buffer-with_bytes : (b : Bytes) (w : World) → buffer (with_bytes b i w) i ≡ buffer w i ++ b
  buffer-with_bytes b w = ap (λ (c : Client). c.receive_buffer) (set_at_self w.client i _)

  process_received_buffer-deliver :
      (w : World)
      → i < w.next_client
      → process_received_buffer uv i w ≡ deliver uv i (lines (buffer w i)) w
  unfolding process_received_buffer
  process_received_buffer-deliver w lt = drain-deliver uv i (length (buffer w i)) w lt (omega arith)

  -- The receive loop ends: any fuel from the length of the buffer on gives the same run as the fuel
  -- that `process_received_buffer` starts with, for any bytes, any application and any answers of
  -- libuv.
  pub drain_enough :
      (f : ℕ) (w : World)
      → i < w.next_client
      → length (buffer w i) ≤ f
      → drain uv f i w ≡ process_received_buffer uv i w
  drain_enough f w lt enough =
      drain-deliver uv i f w lt enough ∙ sym (process_received_buffer-deliver w lt)

  -- The bytes of a connection come in two reads, with no other callback between them, and the first
  -- is handled without a fault: the lines that the loop delivers after the first and after the
  -- second read are together, in order, the lines of all the bytes. None is lost, repeated or cut
  -- in two.
  pub two_reads :
      (w v : World) (b : Bytes)
      → i < w.next_client
      → process_received_buffer uv i w ≡ ok (tt, v)
      → (later : List Bytes) × (lines (buffer w i ++ b) ≡ lines (buffer w i) ++ later)
        × (process_received_buffer uv i w ≡ deliver uv i (lines (buffer w i)) w)
        × (process_received_buffer uv i (with_bytes b i v) ≡ deliver uv i later (with_bytes b i v))
  two_reads w v b lt e =
      let left =
        drain-rest uv i (length (buffer w i)) w v lt (omega arith)
          (unfold process_received_buffer in e) in
      (
        lines (rest (buffer w i) ++ b),
        (lines-append (buffer w i) b).0,
        process_received_buffer-deliver w lt,
        process_received_buffer-deliver (with_bytes b i v) left.1
            ∙ ap (λ s. deliver uv i (lines s) (with_bytes b i v))
                (buffer-with_bytes b v ∙ ap (λ s. s ++ b) left.0),
      )

  parse_message-bad :
      (host port : Bytes) (more : List Bytes) (x : Fault)
      → stoi port ≡ fault x
      → parse_message (codes "OPEER" ∷ host ∷ port ∷ more) ≡ fault x
  unfolding parse_message parse_other_peer bytes_eq
  parse_message-bad host port more x e = rw e (ground arith)

  -- A line whose words are `OPEER`, a host and a text that `stoi` refuses, at the start of a read:
  -- the exception of `stoi` is caught nowhere, and ends the process, whichever the application is.
  pub bad_port_aborts :
      (w : World) (line tail host port : Bytes) (more : List Bytes) (x : Fault)
      → i < w.next_client
      → Lacks b'\n' line
      → buffer w i ≡ line ++ b'\n' ∷ tail
      → words line ≡ codes "OPEER" ∷ host ∷ port ∷ more
      → stoi port ≡ fault x
      → process_received_buffer uv i w ≡ fault x
  bad_port_aborts w line tail host port more x lt one e ws bad =
      process_received_buffer-deliver w lt
      ∙ ap (λ ls. deliver uv i ls w) (ap lines e ∙ lines_first line tail one)
      ∙ (unfold deliver in
          bind_fault (process_line uv i line) _ (consumed (suc (length line)) i w) (
            unfold process_line in
            ap (λ r. (lift r >>= handle_parsed uv i) (consumed (suc (length line)) i w))
              (ap parse_message ws ∙ parse_message-bad host port more x bad)))
