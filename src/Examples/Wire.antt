-- ===== src/Examples/Wire.antt =====
-- The theorems on texts at concrete inputs.
use tcpserver_cpp_libuv_samp.Args.Printing.{print_args, peers_label, print_peer_args, print_range}
use tcpserver_cpp_libuv_samp.Base.{
  ◌≡◌, ◌↔◌, refl, List, [], ◌∷◌, ◌/◌, ◌%◌, bytes_eq, bytes_ne, some, codes, arith,
}
use tcpserver_cpp_libuv_samp.Base.Int.{pos, negsuc}
use tcpserver_cpp_libuv_samp.Base.Outcome.{ok}
use tcpserver_cpp_libuv_samp.Text.{
  to_string, decimal, digits, words, words_from, flush, stoi, signed, skip_spaces, to_int,
  magnitude, read_digits,
}
use tcpserver_cpp_libuv_samp.Text.Words.{is_word-IsWord, words-All}
use tcpserver_cpp_libuv_samp.Text.Split.{Lacks}
use tcpserver_cpp_libuv_samp.Message.{Message, serialize, parse_message, parse_other_peer}
use tcpserver_cpp_libuv_samp.Message.RoundTrip.{IsSendable, parse_message-serialize}
use tcpserver_cpp_libuv_samp.Message.Parsed.{parse_message-IsSendable}
use tcpserver_cpp_libuv_samp.Endpoint.{Endpoint, parse_endpoint, get_endpoint}
use tcpserver_cpp_libuv_samp.Endpoint.RoundTrip.{parse_endpoint-get_endpoint, parse_endpoint_stable}
use tcpserver_cpp_libuv_samp.Remote.{address_of, network_order, port_of_network_order}
use tcpserver_cpp_libuv_samp.World.{inet}
use tcpserver_cpp_libuv_samp.Listen.{AppParams}
use tcpserver_cpp_libuv_samp.Args.{process_args}
use tcpserver_cpp_libuv_samp.Args.RoundTrip.{ArgOption, rendered, applied, process_args-rendered}
use tcpserver_cpp_libuv_samp.Examples.{far_address}

abbrev hello : Message
hello = Message.handshake (codes "V01") (codes "10.0.0.1:5000") (codes ":5001")

hello-IsSendable : IsSendable hello
hello-IsSendable = (is_word-IsWord _ refl, is_word-IsWord _ refl, is_word-IsWord _ refl)

parse_message-serialize_example : parse_message (words (serialize hello)) ≡ ok (some hello)
parse_message-serialize_example = parse_message-serialize hello hello-IsSendable

abbrev third_peer : Message
third_peer = Message.other_peer (codes "10.0.0.2") (pos 5003)

third_peer_parsed :
    parse_message (words (codes "OPEER 10.0.0.2 5003x  more")) ≡ ok (some third_peer)
unfolding parse_message words words_from flush bytes_eq parse_other_peer stoi signed skip_spaces
    to_int magnitude read_digits
third_peer_parsed = refl

parse_message-IsSendable_example : IsSendable third_peer
parse_message-IsSendable_example =
    parse_message-IsSendable (words (codes "OPEER 10.0.0.2 5003x  more")) third_peer
      (words-All (codes "OPEER 10.0.0.2 5003x  more")) third_peer_parsed

abbrev local_endpoint : Endpoint
local_endpoint = record { host = codes "localhost"; port = negsuc 4 }

parse_endpoint-get_endpoint_example :
    (parse_endpoint (get_endpoint local_endpoint) ≡ local_endpoint) ↔ Lacks b':' local_endpoint.host
parse_endpoint-get_endpoint_example = parse_endpoint-get_endpoint local_endpoint (omega arith)

parse_endpoint_stable_example :
    parse_endpoint (get_endpoint (parse_endpoint (codes "[::1]:80")))
    ≡ parse_endpoint (codes "[::1]:80")
parse_endpoint_stable_example = parse_endpoint_stable (codes "[::1]:80")

port_of_network_order_example :
    ((address_of inet far_address).port ≡ pos 5000) ↔ (5000 / 256 ≡ 5000 % 256)
unfolding network_order
port_of_network_order_example =
    port_of_network_order far_address (codes "10.0.0.1") 5000 (omega arith) refl refl

abbrev default_params : AppParams
default_params = record { extra_peers = []; listen_port = pos 5000; listen_port_range = pos 10 }

abbrev some_options : List ArgOption
some_options = ArgOption.port (pos 5005) ∷ ArgOption.peer (codes "-port") ∷ []

process_args-rendered_example :
    process_args default_params (codes "./tcp-libuv-node" ∷ rendered some_options)
    ≡ ok (applied some_options default_params)
unfolding bytes_eq
process_args-rendered_example =
    process_args-rendered (codes "./tcp-libuv-node") some_options default_params (bytes_ne _ _ refl)
      (bytes_ne _ _ refl) ((omega arith, omega arith), (tt, tt))

-- With no extra peers the label's line is followed by an empty one.
print_args_test :
    print_args (record { extra_peers = []; listen_port = pos 5000; listen_port_range = pos 10 })
    ≡ codes "Extra peers:     (none)\n\nListening port: 5000 (5000 -- 5009)\n\n"
unfolding print_args peers_label print_peer_args print_range to_string decimal digits
print_args_test = refl
