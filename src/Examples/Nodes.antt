-- ===== src/Examples/Nodes.antt =====
-- The theorems on runs of a node at concrete inputs.
use tcpserver_cpp_libuv_samp.Listen.Ports.{Returns}
use tcpserver_cpp_libuv_samp.Base.{false, ◌≤◌, ◌==◌, if◌then◌else◌}
use tcpserver_cpp_libuv_samp.Node.{node_message_received}
use tcpserver_cpp_libuv_samp.Node.Faults.{bad_name_aborts}
use tcpserver_cpp_libuv_samp.Base.{none, some, ◌≡◌, refl, List, [], ◌∷◌, codes, bytes_eq}
use tcpserver_cpp_libuv_samp.Base.Int.{ℤ, pos, negsuc}
use tcpserver_cpp_libuv_samp.Base.Outcome.{Outcome, ok, fault, Fault}
use tcpserver_cpp_libuv_samp.Text.{stoi, skip_spaces, signed, magnitude, to_int}
use tcpserver_cpp_libuv_samp.Message.{Message}
use tcpserver_cpp_libuv_samp.World.{
  PeerCandidate, Node, node_app, ◌>>◌, ◌>>=◌, uv_tcp_init, uv_tcp_connect,
}
use tcpserver_cpp_libuv_samp.Client.{new_client_in}
use tcpserver_cpp_libuv_samp.Peers.{is_peer_connected, may_try}
use tcpserver_cpp_libuv_samp.Node.Trying.{AppBounded}
use tcpserver_cpp_libuv_samp.Frame.{After}
use tcpserver_cpp_libuv_samp.Listen.{AppParams, node_start}
use tcpserver_cpp_libuv_samp.Kept.Runs.{Event, run, run-AppBounded}
use tcpserver_cpp_libuv_samp.World.{World, Call, uv_tcp_bind, Uv}
use tcpserver_cpp_libuv_samp.Listen.{
  server_start, start_with_listen, do_listen, listen_from, next_ports, do_bind_and_listen,
  listen_started, listen_started_by, start_uv_loop,
}
use tcpserver_cpp_libuv_samp.Node.{try_out_connections, try_candidates, try_candidate, is_self}
use tcpserver_cpp_libuv_samp.Node.Failed.{failed_connect_not_retried}
use tcpserver_cpp_libuv_samp.Events.{on_connect}
use tcpserver_cpp_libuv_samp.Text.{to_string, decimal, digits}
use tcpserver_cpp_libuv_samp.Listen.Tries.{Listened}
use tcpserver_cpp_libuv_samp.Listen.Listening.{IsServed, start_with_listen-Listened}
use tcpserver_cpp_libuv_samp.Programs.{client_start}
use tcpserver_cpp_libuv_samp.Kept.Streams.{IsClean}
use tcpserver_cpp_libuv_samp.Kept.Handles.{IsNew, run-IsClean}
use tcpserver_cpp_libuv_samp.Kept.Classes.{IsTyped}
use tcpserver_cpp_libuv_samp.Kept.Typed.{run-IsTyped}
use tcpserver_cpp_libuv_samp.Kept.Order.{Learns, run-Learns}
use tcpserver_cpp_libuv_samp.Examples.{world_of, with_buffer, quiet_uv, a_node}

abbrev a_new_node : Node
a_new_node = record { name = []; cands = []; peers = [] }

abbrev some_params : AppParams
some_params = record {
  extra_peers = codes "10.0.0.2:5005" ∷ [];
  listen_port = pos 5000;
  listen_port_range = pos 10;
}

abbrev some_events : List Event
some_events =
    Event.connect_done (some 1) 8 (pos 0)
    ∷ Event.read_done (some 1) (pos 17) (some (codes "OPEER 10.0.0.3 5\n"))
    ∷ []

run-AppBounded_example :
    After
      (λ v. AppBounded v.app)
      ((node_start quiet_uv some_params >> run quiet_uv some_events)
        (world_of (node_app a_new_node) []))
run-AppBounded_example =
    run-AppBounded quiet_uv some_params some_events a_new_node (world_of (node_app a_new_node) [])
      refl refl

abbrev a_host : Node
a_host = record a_node { peers = record { client = some 0; out_flag = false } ∷ [] }

bad_name_aborts_example :
    node_message_received quiet_uv 0
      (Message.handshake (codes "V01") (codes "y") (codes ":x"))
      (world_of (node_app a_host) [])
    ≡ fault Fault.invalid_argument
unfolding is_peer_connected bytes_eq new_client_in
bad_name_aborts_example =
    bad_name_aborts quiet_uv 0 7 a_host (codes "y") (codes "x") Fault.invalid_argument
      (world_of (node_app a_host) []) refl refl refl
      (unfold stoi skip_spaces signed magnitude to_int in refl)

abbrev a_new_world : World
a_new_world = record (world_of (node_app a_new_node) []) {
  client = λ i. record (with_buffer []) { stream = none };
}

a_new_world-IsNew : IsNew a_new_world
a_new_world-IsNew = record { no_calls = refl; no_streams = λ i. refl }

run-IsClean_example :
    After
      (λ v. IsClean v.trace)
      ((node_start quiet_uv some_params >> run quiet_uv some_events) a_new_world)
    × After
        (λ v. IsClean v.trace)
        ((server_start quiet_uv some_params >> run quiet_uv some_events) a_new_world)
    × After
        (λ v. IsClean v.trace)
        (client_start quiet_uv (run quiet_uv some_events) some_params a_new_world)
run-IsClean_example = run-IsClean quiet_uv some_params some_events a_new_world a_new_world-IsNew

abbrev a_world_of_none : World
a_world_of_none = record a_new_world { next_client = 0 }

run-IsTyped_example :
    After IsTyped ((node_start quiet_uv some_params >> run quiet_uv some_events) a_world_of_none)
    × After IsTyped
        ((server_start quiet_uv some_params >> run quiet_uv some_events) a_world_of_none)
    × After IsTyped (client_start quiet_uv (run quiet_uv some_events) some_params a_world_of_none)
run-IsTyped_example = run-IsTyped quiet_uv some_params some_events a_world_of_none refl refl

-- A libuv that does not bind port 5000.
abbrev busy : Call → ℤ
busy (uv_tcp_bind handle host (pos port)) = if port == 5000 then negsuc 97 else pos 0
busy (other) = pos 0

abbrev busy_uv : Uv
busy_uv = record quiet_uv { result = λ trace c. busy c }

start_with_listen-Listened_example :
    (1 ≤ next_ports (pos 10))
    × (next_ports (pos 10) ≤ 10)
    × Returns
        (λ p v. Listened busy_uv (next_ports (pos 10)) (pos 5000) 8 [] p v × IsServed busy_uv p v)
        (start_with_listen busy_uv (pos 5000) (pos 10) a_new_world)
start_with_listen-Listened_example =
    start_with_listen-Listened busy_uv (pos 5000) (pos 10) a_new_world

-- It listens on the next port.
abbrev started_port : Outcome (ℤ × World) → ℤ
started_port (ok (p, v)) = p
started_port (fault e) = negsuc 0

started_port_test :
    started_port (start_with_listen busy_uv (pos 5000) (pos 10) a_new_world) ≡ pos 5001
unfolding start_with_listen do_listen listen_from next_ports do_bind_and_listen listen_started
    listen_started_by start_uv_loop try_out_connections try_candidates
started_port_test = refl

run-Learns_example :
    After
      (Learns quiet_uv (codes "10.0.0.3") (pos 5) 0)
      ((node_start quiet_uv some_params >> run quiet_uv some_events) a_world_of_none)
run-Learns_example =
    run-Learns quiet_uv (codes "10.0.0.3") (pos 5) some_params some_events 0 a_new_node
      a_world_of_none refl refl refl refl

-- A peer of the command line, that may be tried a million times.
abbrev persistent : PeerCandidate
persistent = record {
  host = codes "10.0.0.2";
  port = pos 5005;
  to_try = 1000000;
  conn_try_count = 0;
  connected_count = 0;
}

failed_connect_not_retried_example :
    (c' : PeerCandidate) × (v : World) × ((try_candidate quiet_uv (codes "10.0.0.2:5005") persistent
          >>= λ d.
              on_connect quiet_uv a_world_of_none.next_client a_world_of_none.next_handle
                (negsuc 110)
              >> try_candidate quiet_uv (codes "10.0.0.2:5005") d)
        a_world_of_none
      ≡ ok (c', v))
    × (c'.conn_try_count ≡ 1)
    × (c'.to_try ≡ 1000000)
    × (v.trace
        ≡ uv_tcp_connect a_world_of_none.next_handle (codes "10.0.0.2") (pos 5005)
          ∷ uv_tcp_init a_world_of_none.next_handle
          ∷ a_world_of_none.trace)
unfolding to_string decimal digits may_try is_self bytes_eq is_peer_connected
failed_connect_not_retried_example =
    failed_connect_not_retried quiet_uv (negsuc 110) (codes "10.0.0.2:5005") persistent a_new_node
      a_world_of_none (record { app = refl; made = λ p i h e. absurd h }) refl refl refl refl refl
