-- ===== src/Examples/Sessions.antt =====
-- The theorem on a session of a client at a concrete input.
use tcpserver_cpp_libuv_samp.Base.{Bytes, ◌≡◌, refl, List, [], ◌∷◌, ◌++◌, codes, arith}
use tcpserver_cpp_libuv_samp.Base.Outcome.{ok}
use tcpserver_cpp_libuv_samp.Text.Words.{is_word-IsWord}
use tcpserver_cpp_libuv_samp.Message.{Message}
use tcpserver_cpp_libuv_samp.World.{connecting, client_out, client_app, Client, World}
use tcpserver_cpp_libuv_samp.Client.Closing.{IsGivenUp}
use tcpserver_cpp_libuv_samp.Framing.Stream.{written}
use tcpserver_cpp_libuv_samp.Session.{Works, conn}
use tcpserver_cpp_libuv_samp.Session.Pings.{pings}
use tcpserver_cpp_libuv_samp.World.Steps.{writes_to}
use tcpserver_cpp_libuv_samp.Session.Whole.{hello, session, IsLastClose, session-pings}
use tcpserver_cpp_libuv_samp.Session.Served.{texts, replies, session-served}
use tcpserver_cpp_libuv_samp.Events.{process_received_buffer}
use tcpserver_cpp_libuv_samp.Client.{new_client_in}
use tcpserver_cpp_libuv_samp.Examples.{a_server, server_world, world_of, quiet_uv, with_buffer}

abbrev a_client : Client
a_client = record (with_buffer []) {
  kind = client_out;
  ping_to_send = 1;
  peer_addr = codes "localhost:5000";
}

abbrev connecting_world : World
connecting_world = record (world_of client_app []) { client = λ i. conn 7 a_client connecting 0 [] }

quiet_uv-Works : Works quiet_uv 7
quiet_uv-Works = record { writes = λ t b. refl; reads = λ t. refl; stays = λ t. refl }

abbrev two_answers : List Message
two_answers =
    Message.handshake_response (codes "V01") (codes ":5000") (codes "y")
    ∷ Message.ping_response (codes "z")
    ∷ []

session-pings_example :
    (v : World) × (session quiet_uv 0 7 two_answers connecting_world ≡ ok (tt, v))
    × IsGivenUp 0 v
    × IsLastClose 7 v.trace
    × (writes_to 7 v.trace
        ≡ [] ++ written (hello (codes "localhost:5000") ∷ pings (codes "localhost:5000") 0 1))
session-pings_example =
    session-pings quiet_uv 0 7 quiet_uv-Works a_client two_answers connecting_world refl refl
      (omega arith) refl
      (
        (is_word-IsWord _ refl, is_word-IsWord _ refl, is_word-IsWord _ refl),
        (is_word-IsWord _ refl, tt),
      )

abbrev asked : Bytes
asked = written (hello (codes "localhost:5000") ∷ pings (codes "localhost:5000") 0 1)

abbrev answers : List Message
answers = replies (codes ":5000") (codes "10.0.0.1:34835") (texts (codes "localhost:5000") 0 1)

session-served_example :
    (vc vs : World) × (session quiet_uv 0 7 answers connecting_world ≡ ok (tt, vc))
    × (writes_to 7 vc.trace ≡ [] ++ asked)
    × (process_received_buffer quiet_uv 0 (server_world asked) ≡ ok (tt, vs))
    × (writes_to 7 vs.trace ≡ [] ++ written answers)
unfolding new_client_in
session-served_example =
    session-served quiet_uv quiet_uv 0 0 7 7 quiet_uv-Works (λ t b. refl) a_client a_server
      connecting_world (server_world asked) refl refl (omega arith) (omega arith) refl refl
      (is_word-IsWord _ refl) (is_word-IsWord _ refl) (is_word-IsWord _ refl) refl
