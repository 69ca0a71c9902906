-- ===== src/Listen.antt =====
-- The listening side of lib/net_handler.cpp, and the starts of the applications in lib/app.cpp and
-- node/node.cpp. The threads of the loop are in `Loop`, its callbacks in `Events`.
pub mod Ports
pub mod Named
pub mod Tries
pub mod Listening
use tcpserver_cpp_libuv_samp.Base.{
  ℕ, zero, suc, ◌+◌, ◌++◌, Bool, true, false, List, [], ◌∷◌, Option, none, some, Bytes, codes,
  if◌then◌else◌,
}
use Prim.Native.Nat.{min, max}
use tcpserver_cpp_libuv_samp.Base.Int.{ℤ, pos, negsuc, ◌+ℤ◌, is_zero}
use tcpserver_cpp_libuv_samp.Base.Outcome.{Outcome, ok, fault, Fault}
use tcpserver_cpp_libuv_samp.Text.{to_string}
use tcpserver_cpp_libuv_samp.Endpoint.{parse_endpoint}
use tcpserver_cpp_libuv_samp.World.{
  Server, Node, App, server_app, client_app, node_app, uv_tcp_init, uv_tcp_bind, uv_listen,
  uv_async_init, Uv, World, M, pure, ◌>>=◌, ◌>>◌, require, get_app, put_app, new_handle, call,
}
use tcpserver_cpp_libuv_samp.Peers.{add_out_peer_candidate}
use tcpserver_cpp_libuv_samp.Client.{is_positive}
use tcpserver_cpp_libuv_samp.Node.{try_out_connections, modify_node}

-- `AppParams` of lib/app.hpp.
pub record AppParams : Type 0 where
  pub extra_peers : List Bytes
  pub listen_port : ℤ
  pub listen_port_range : ℤ

-- `max(min(n, 10), 1)`, the number of ports that are tried.
unfoldable pub next_ports : ℤ → ℕ
next_ports (pos n) = max (min n 10) 1
next_ports (negsuc n) = 1

module _ (uv : Uv) where
  unfoldable pub do_bind_and_listen : ℤ → M ℤ
  do_bind_and_listen port = do
    server ← new_handle
    _ ← call uv (uv_tcp_init server)
    res ← call uv (uv_tcp_bind server (codes "0.0.0.0") port)
    if is_zero res then call uv (uv_listen server 10) else pure res

  -- `listenStarted`: the node takes its name from the port, and tries its candidates.
  unfoldable pub listen_started_by : App → ℤ → M (Unit {0})
  listen_started_by (server_app s) port = pure tt
  listen_started_by client_app port = pure tt
  listen_started_by (node_app n) port = do
    put_app (node_app (record n { name = codes ":" ++ to_string port }))
    try_out_connections uv

  unfoldable pub listen_started : ℤ → M (Unit {0})
  listen_started port = do app ← get_app; listen_started_by app port

  -- The loop of `doListen`, with the rounds left.
  unfoldable pub listen_from : ℕ → ℤ → M ℤ
  listen_from zero port = pure (negsuc 0)
  listen_from (suc n) port = do
    res ← do_bind_and_listen port
    if is_zero res then (do listen_started port; pure port) else listen_from n (port +ℤ pos 1)

  unfoldable pub do_listen : ℤ → ℤ → M ℤ
  do_listen port try_next_ports = listen_from (next_ports try_next_ports) port

  -- `startUvLoop` up to the start of the thread, with its `assert` active.
  unfoldable pub start_uv_loop : M (Unit {0})
  start_uv_loop = do
    handle ← new_handle
    res ← call uv (uv_async_init handle)
    require (is_zero res)

  unfoldable pub start_with_listen : ℤ → ℤ → M ℤ
  start_with_listen port try_next_ports = do
    actual ← do_listen port try_next_ports
    if is_positive actual then (do start_uv_loop; pure actual) else pure actual

  unfoldable pub name_server : ℤ → App → App
  name_server port (server_app s) = server_app (record s { name = codes ":" ++ to_string port })
  name_server port client_app = client_app
  name_server port (node_app n) = node_app n

  -- `ServerApp::start`.
  unfoldable pub server_start : AppParams → M (Unit {0})
  server_start params = do
    actual ← start_with_listen params.listen_port params.listen_port_range
    app ← get_app
    if is_positive actual then put_app (name_server actual app) else pure tt

-- The candidates of `NodeApp::start`: two local ports, then the given peers that are not empty.
unfoldable pub add_extra_peer : Bytes → Node → Node
add_extra_peer [] n = n
add_extra_peer (c ∷ s) n =
    let e = parse_endpoint (c ∷ s) in
    record n { cands = add_out_peer_candidate e.host e.port 1000000 n.cands }

unfoldable pub add_extra_peers : List Bytes → Node → Node
add_extra_peers [] n = n
add_extra_peers (s ∷ rest) n = add_extra_peers rest (add_extra_peer s n)

unfoldable pub add_local_peers : ℕ → ℕ → Node → Node
add_local_peers zero i n = n
add_local_peers (suc k) i n =
    add_local_peers k (i + 1)
      (record n { cands = add_out_peer_candidate (codes "localhost") (pos (5000 + i)) 1 n.cands })

module _ (uv : Uv) where
  unfoldable pub node_start : AppParams → M (Unit {0})
  node_start params = do
    modify_node (add_local_peers 2 0)
    modify_node (add_extra_peers params.extra_peers)
    _ ← start_with_listen uv params.listen_port params.listen_port_range
    pure tt
