-- ===== src/Programs.antt =====
-- The programs of node/main.cpp, server/server.cpp and client/client.cpp, up to the wait for a key,
-- and `ClientApp::start` of lib/app.cpp around its run of the loop.
use tcpserver_cpp_libuv_samp.Base.{ℕ, zero, suc, ◌+◌, List, [], ◌∷◌, Bytes, codes}
use tcpserver_cpp_libuv_samp.Base.Int.{ℤ, pos, ◌+ℤ◌}
use tcpserver_cpp_libuv_samp.World.{client_out, Uv, M, pure, ◌>>=◌, ◌>>◌, lift, new_client}
use tcpserver_cpp_libuv_samp.App.{destroy_all}
use tcpserver_cpp_libuv_samp.Client.{new_client_out, connect}
use tcpserver_cpp_libuv_samp.Listen.{AppParams, server_start, node_start}
use tcpserver_cpp_libuv_samp.Args.{process_args}

-- The constructor of `AppParams` with no peers.
unfoldable pub app_params : ℤ → ℤ → AppParams
app_params port range = record { extra_peers = []; listen_port = port; listen_port_range = range }

module _ (uv : Uv) where
  -- The first loop of `ClientApp::start`, with the rounds left; a failed `connect` is ignored.
  unfoldable pub connect_clients : ℕ → ℕ → ℤ → M (List ℕ)
  connect_clients zero i port = pure []
  connect_clients (suc k) i port = do
    c ← new_client (new_client_out client_out (codes "localhost") (port +ℤ pos i) (3 + i))
    _ ← connect uv c
    rest ← connect_clients k (i + 1) port
    pure (c ∷ rest)

  -- `ClientApp::start`; `loop` is what `runLoop` does.
  unfoldable pub client_start : M (Unit {0}) → AppParams → M (Unit {0})
  client_start loop params = do
    clients ← connect_clients 3 0 params.listen_port
    loop
    destroy_all uv clients

  unfoldable pub server_main : M (Unit {0})
  server_main = server_start uv (app_params (pos 5000) (pos 5))

  unfoldable pub client_main : M (Unit {0}) → M (Unit {0})
  client_main loop = client_start loop (app_params (pos 5000) (pos 5))

  unfoldable pub node_main : List Bytes → M (Unit {0})
  node_main args = do
    params ← lift (process_args (app_params (pos 5000) (pos 10)) args)
    node_start uv params
