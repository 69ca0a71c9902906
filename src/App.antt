-- ===== src/App.antt =====
-- The callbacks of lib/app.cpp and node/node.cpp that need no connection to act: `connectionClosed`,
-- `inConnectionReceived`, `listenStarted` and `getName`, for each of the three applications.
pub mod Dropped
pub mod Stops
pub mod Timers
use tcpserver_cpp_libuv_samp.Base.{
  ℕ, ◌==◌, false, List, [], ◌∷◌, ◌++◌, Option, none, some, Bytes, codes, if◌then◌else◌,
}
use tcpserver_cpp_libuv_samp.Base.Outcome.{Outcome, ok, fault}
use tcpserver_cpp_libuv_samp.Dict.{Dict, insert}
use tcpserver_cpp_libuv_samp.World.{
  Kind, client_in, client_out, peer_client_out, Client, Server, Node, App, server_app, client_app,
  node_app, uv_timer_stop, Uv, World, M, pure, ◌>>=◌, ◌>>◌, get_client, clear_timer, call,
}
use tcpserver_cpp_libuv_samp.Peers.{set_client, close_peer, dropped_peers}

-- `ServerApp::connectionClosed`: the first entry with this connection is erased.
unfoldable pub erase_client : ℕ → Dict ℕ → Dict ℕ
erase_client i [] = []
erase_client i ((k, j) ∷ m) = if j == i then m else (k, j) ∷ erase_client i m

unfoldable pub closed_app : (ℕ → Client) → ℕ → App → App
closed_app client i (server_app s) = server_app (record s { clients = erase_client i s.clients })
closed_app client i client_app = client_app
closed_app client i (node_app n) = node_app (record n { peers = close_peer client i n.peers })

-- The connection objects of which the application drops its last reference there.
unfoldable pub dropped_client : ℕ → Dict ℕ → List ℕ
dropped_client i [] = []
dropped_client i ((k, j) ∷ m) = if j == i then j ∷ [] else dropped_client i m

unfoldable pub dropped_app : (ℕ → Client) → ℕ → App → List ℕ
dropped_app client i (server_app s) = dropped_client i s.clients
dropped_app client i client_app = []
dropped_app client i (node_app n) = dropped_peers client i n.peers

module _ (uv : Uv) where
  -- The destructor of `PeerClientOut`; those of the other classes are empty.
  unfoldable pub stop_timer : ℕ → Option ℕ → M (Unit {0})
  stop_timer i none = pure tt
  stop_timer i (some timer) = do _ ← call uv (uv_timer_stop timer); clear_timer i

  unfoldable pub destroy_as : Kind → ℕ → Option ℕ → M (Unit {0})
  unfolding stop_timer
  destroy_as peer_client_out i timer = stop_timer i timer
  destroy_as client_in i timer = pure tt
  destroy_as client_out i timer = pure tt

  unfoldable pub destroy : ℕ → M (Unit {0})
  destroy i = do c ← get_client i; destroy_as c.kind i c.timer

  unfoldable pub destroy_all : List ℕ → M (Unit {0})
  destroy_all [] = pure tt
  destroy_all (j ∷ js) = do destroy j; destroy_all js

  -- The destructors make no use of the application's tables, which are set here first.
  unfoldable pub connection_closed : ℕ → M (Unit {0})
  connection_closed i w =
      destroy_all (dropped_app w.client i w.app) (record w { app = closed_app w.client i w.app })

-- `getNicePeerAddr`.
unfoldable pub nice_peer_addr : Client → Bytes
nice_peer_addr c = elim c.canon_peer_addr [ [] ↦ c.peer_addr | b ∷ s ↦ b ∷ s ]

abbrev pub received_client : (ℕ → Client) → ℕ → Server → Server
received_client client i s = record s { clients = insert (nice_peer_addr (client i)) i s.clients }

abbrev pub received_peer : ℕ → Node → Node
received_peer i n = record n {
  peers = n.peers ++ (set_client (some i) (record { client = none; out_flag = false }) ∷ []);
}

unfoldable pub received_app : (ℕ → Client) → ℕ → App → App
received_app client i (server_app s) = server_app (received_client client i s)
received_app client i client_app = client_app
received_app client i (node_app n) = node_app (received_peer i n)

unfoldable pub in_connection_received : ℕ → M (Unit {0})
in_connection_received i w = ok (tt, record w { app = received_app w.client i w.app })

unfoldable pub get_name : App → Bytes
get_name (server_app s) = s.name
get_name client_app = codes "_NONE_"
get_name (node_app n) = n.name
