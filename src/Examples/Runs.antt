-- ===== src/Examples/Runs.antt =====
-- The theorems on runs at concrete inputs.
use tcpserver_cpp_libuv_samp.Base.{
  ◌≡◌, refl, List, [], ◌∷◌, ◌++◌, Bytes, codes, bytes_eq, bytes_ne, arith,
}
use tcpserver_cpp_libuv_samp.Base.Int.{pos}
use tcpserver_cpp_libuv_samp.Base.Outcome.{ok, fault, Fault}
use tcpserver_cpp_libuv_samp.Text.{
  words, words_from, flush, stoi, find, skip_spaces, signed, magnitude, to_int,
}
use tcpserver_cpp_libuv_samp.Text.Words.{is_word-IsWord}
use tcpserver_cpp_libuv_samp.Message.{Message, serialize}
use tcpserver_cpp_libuv_samp.World.{World}
use tcpserver_cpp_libuv_samp.Client.{close, send_message, new_client_in}
use tcpserver_cpp_libuv_samp.Client.Closing.{IsGivenUp, close_final}
use tcpserver_cpp_libuv_samp.Node.{try_out_connections}
use tcpserver_cpp_libuv_samp.Node.Trying.{AppBounded, try_out_connections-AppBounded}
use tcpserver_cpp_libuv_samp.Events.{
  process_received_buffer, drain, message_received, on_connect, on_write, on_timer,
  on_new_connection,
}
use tcpserver_cpp_libuv_samp.Server.Answers.{pings, answered, pings-answered}
use tcpserver_cpp_libuv_samp.Server.Faults.{wrong_version_then_ping}
use tcpserver_cpp_libuv_samp.Frame.{Framed, After}
use tcpserver_cpp_libuv_samp.Frame.Callbacks.{callbacks-Framed}
use tcpserver_cpp_libuv_samp.Frame.Handlers.{message_received-Framed}
use tcpserver_cpp_libuv_samp.Framing.{lines, rest}
use tcpserver_cpp_libuv_samp.Framing.Receive.{buffer, deliver}
use tcpserver_cpp_libuv_samp.Framing.Stream.{
  written, handle_messages, process_received_buffer-written, process_received_buffer-rest,
}
use tcpserver_cpp_libuv_samp.Framing.Reads.{with_bytes, drain_enough, two_reads, bad_port_aborts}
use tcpserver_cpp_libuv_samp.Examples.{quiet_uv, a_server, server_world, node_world}

abbrev two_pings : List Message
two_pings = Message.ping (codes "a") ∷ Message.ping (codes "b") ∷ []

process_received_buffer-written_example :
    process_received_buffer quiet_uv 0 (server_world (written two_pings ++ codes "PI"))
    ≡ handle_messages quiet_uv 0 two_pings (server_world (written two_pings ++ codes "PI"))
process_received_buffer-written_example =
    process_received_buffer-written quiet_uv 0 (server_world (written two_pings ++ codes "PI"))
      two_pings (codes "PI") (omega arith) (is_word-IsWord _ refl, (is_word-IsWord _ refl, tt))
      (omega arith) refl

process_received_buffer-rest_example :
    After
      (λ v. buffer v 0 ≡ rest (codes "x\nPI"))
      (process_received_buffer quiet_uv 0 (server_world (codes "x\nPI")))
process_received_buffer-rest_example =
    process_received_buffer-rest quiet_uv 0 (server_world (codes "x\nPI")) (omega arith)

first_read :
    process_received_buffer quiet_uv 0 (server_world (codes "PI"))
    ≡ ok (tt, server_world (codes "PI"))
unfolding process_received_buffer drain find
first_read = refl

two_reads_example :
    (later : List Bytes) × (lines (codes "PI" ++ codes "NG a\n") ≡ lines (codes "PI") ++ later)
    × (process_received_buffer quiet_uv 0 (server_world (codes "PI"))
        ≡ deliver quiet_uv 0 (lines (codes "PI")) (server_world (codes "PI")))
    × (process_received_buffer quiet_uv 0
          (with_bytes (codes "NG a\n") 0 (server_world (codes "PI")))
        ≡ deliver quiet_uv 0 later (with_bytes (codes "NG a\n") 0 (server_world (codes "PI"))))
two_reads_example =
    two_reads quiet_uv 0 (server_world (codes "PI")) (server_world (codes "PI")) (codes "NG a\n")
      (omega arith) first_read

drain_enough_example :
    drain quiet_uv 99 0 (server_world (codes "PING a\nPI"))
    ≡ process_received_buffer quiet_uv 0 (server_world (codes "PING a\nPI"))
drain_enough_example =
    drain_enough quiet_uv 0 99 (server_world (codes "PING a\nPI")) (omega arith) (omega arith)

bad_port_words : words (codes "OPEER h x") ≡ codes "OPEER" ∷ codes "h" ∷ codes "x" ∷ []
unfolding words words_from flush
bad_port_words = refl

bad_port_stoi : stoi (codes "x") ≡ fault Fault.invalid_argument
unfolding stoi skip_spaces signed magnitude to_int
bad_port_stoi = refl

bad_port_aborts_example :
    process_received_buffer quiet_uv 0 (node_world (codes "OPEER h x\n"))
    ≡ fault Fault.invalid_argument
bad_port_aborts_example =
    bad_port_aborts quiet_uv 0 (node_world (codes "OPEER h x\n")) (codes "OPEER h x") [] (codes "h")
      (codes "x") [] Fault.invalid_argument (omega arith) (omega arith) refl bad_port_words
      bad_port_stoi

close_final_example :
    (v : World) × (u : World) × (close quiet_uv 0 (server_world []) ≡ ok (tt, v))
    × IsGivenUp 0 v
    × (close quiet_uv 0 v ≡ ok (tt, u))
    × (u.trace ≡ v.trace)
    × (u.app ≡ v.app)
    × (send_message quiet_uv 0 (Message.ping (codes "a")) v ≡ ok (tt, v))
close_final_example = close_final quiet_uv 0 (server_world []) (Message.ping (codes "a"))

abbrev old_hello : Message
old_hello = Message.handshake (codes "V00") (codes "y") (codes "m")

wrong_version_then_ping_example :
    process_received_buffer quiet_uv 0
      (server_world (written (old_hello ∷ Message.ping (codes "a") ∷ [])))
    ≡ fault Fault.null_pointer
unfolding serialize bytes_eq
wrong_version_then_ping_example =
    wrong_version_then_ping quiet_uv 0
      (server_world (written (old_hello ∷ Message.ping (codes "a") ∷ []))) a_server (codes "V00")
      (codes "y") (codes "m") (codes "a") [] [] (omega arith) refl (bytes_ne _ _ refl)
      (
        (is_word-IsWord _ refl, is_word-IsWord _ refl, is_word-IsWord _ refl),
        (is_word-IsWord _ refl, tt),
      )
      tt refl

message_received-Framed_example : Framed (message_received quiet_uv 0 old_hello)
message_received-Framed_example = message_received-Framed quiet_uv 0 old_hello

callbacks-Framed_example :
    Framed (on_write quiet_uv 0 (pos 0))
    × Framed (on_connect quiet_uv 0 1 (pos 0))
    × Framed (on_timer quiet_uv 0)
    × Framed (on_new_connection quiet_uv 1 (pos 0))
callbacks-Framed_example = callbacks-Framed quiet_uv 0 1 (pos 0)

try_out_connections-AppBounded_example :
    After (λ v. AppBounded v.app) (try_out_connections quiet_uv (node_world []))
try_out_connections-AppBounded_example =
    try_out_connections-AppBounded quiet_uv (node_world []) (omega arith, tt)

abbrev two_texts : List Bytes
two_texts = codes "a" ∷ codes "b" ∷ []

pings-answered_example :
    (v : World) × (process_received_buffer quiet_uv 0
        (server_world (written (pings two_texts) ++ codes "PI"))
      ≡ ok (tt, v))
    × (v.trace ≡ answered (codes ":5000") 7 two_texts [])
    × (buffer v 0 ≡ codes "PI")
unfolding new_client_in
pings-answered_example =
    pings-answered quiet_uv 0 7 (λ calls b. refl)
      (server_world (written (pings two_texts) ++ codes "PI")) a_server two_texts (codes "PI")
      (omega arith) refl refl (is_word-IsWord _ refl, (is_word-IsWord _ refl, tt)) (omega arith)
      refl
