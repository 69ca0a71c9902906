-- ===== src/Server.antt =====
-- The message handlers of lib/app.cpp: `ServerApp::messageReceived` and `ClientApp::messageReceived`.
pub mod Steps
pub mod Faults
pub mod Answers
use tcpserver_cpp_libuv_samp.Base.{
  ℕ, ◌++◌, Bool, true, false, Bytes, codes, bytes_eq, if◌then◌else◌,
}
use tcpserver_cpp_libuv_samp.Base.Outcome.{Outcome, ok, fault, Fault}
use tcpserver_cpp_libuv_samp.Message.{Message}
use tcpserver_cpp_libuv_samp.World.{Client, Uv, World, M, pure, ◌>>=◌, ◌>>◌, fail, get_client}
use tcpserver_cpp_libuv_samp.Client.{close, send_message}

-- The text of the answer to a ping.
unfoldable pub ping_answer : Bytes → Bytes → Bytes
ping_answer name content = codes "Resp_from_" ++ (name ++ (codes "_to_" ++ content))

-- Any message but a handshake and a ping runs into `assert(false)`, which is taken as active.
unfoldable pub server_message_received : Uv → Bytes → ℕ → Message → M (Unit {0})
unfolding ping_answer
server_message_received uv name i (Message.handshake version your_addr my_addr) =
    if bytes_eq version (codes "V01")
    then (do
      c ← get_client i
      send_message uv i (Message.handshake_response (codes "V01") name c.peer_addr))
    else close uv i
server_message_received uv name i (Message.ping content) =
    send_message uv i (Message.ping_response (ping_answer name content))
server_message_received uv name i other = fail Fault.assertion

unfoldable pub client_message_received : ℕ → Message → M (Unit {0})
client_message_received i m = pure tt
