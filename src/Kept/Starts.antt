-- ===== src/Kept/Starts.antt =====
-- The starts of the three programs (lib/app.cpp, lib/net_handler.cpp, node/node.cpp), for any
-- steady predicate.
use tcpserver_cpp_libuv_samp.Base.{
  ℕ, zero, suc, ◌++◌, List, Bytes, Bool, true, false, codes, if◌then◌else◌,
}
use tcpserver_cpp_libuv_samp.Base.Int.{ℤ, pos, negsuc, ◌+ℤ◌, is_zero}
use tcpserver_cpp_libuv_samp.Text.{to_string}
use tcpserver_cpp_libuv_samp.World.{
  Call, call, new_handle, Node, App, server_app, client_app, node_app, Uv, World, pure, get_app,
  put_app, ◌>>=◌,
}
use tcpserver_cpp_libuv_samp.Client.{is_positive}
use tcpserver_cpp_libuv_samp.Node.{modify_node, try_out_connections}
use tcpserver_cpp_libuv_samp.Frame.{After}
use tcpserver_cpp_libuv_samp.Listen.{
  AppParams, do_bind_and_listen, listen_started_by, listen_started, listen_from, do_listen,
  start_uv_loop, start_with_listen, name_server, server_start, add_extra_peers, add_local_peers,
  node_start,
}
use tcpserver_cpp_libuv_samp.Kept.{kept, Kept, bind-Kept, then-Kept, if-Kept, pure-Kept}
use tcpserver_cpp_libuv_samp.Kept.Steady.{Steady, any_handle-Kept, any_call-Kept}

-- The world in which a node has its name.
abbrev pub named : Bytes → Node → World → World
named name n w = record w { app = node_app (record n { name = name }) }

-- What the starts need besides.
pub record Starts (uv : Uv) (P : World → Type 0) : Type 0 where
  pub steady : Steady P
  pub trials : Kept P (try_out_connections uv)
  pub names :
      (name : Bytes) (n : Node) (w : World) → P (record w { app = node_app n }) → P (named name n w)
  pub renames : (port : ℤ) (w : World) → P w → P (record w { app = name_server uv port w.app })
  pub locals : Kept P (modify_node (add_local_peers 2 0))
  pub extras : (ss : List Bytes) → Kept P (modify_node (add_extra_peers ss))

module _ (uv : Uv) {P : World → Type 0} (T : Starts uv P) where
  listen_started-of :
      (port : ℤ) (w : World) (a : App)
      → P (record w { app = a })
      → After P (listen_started_by uv a port (record w { app = a }))
  unfolding listen_started_by
  listen_started-of port w (server_app s) p = p
  listen_started-of port w client_app p = p
  listen_started-of port w (node_app n) p =
      T.trials.at (named (codes ":" ++ to_string port) n w) (T.names _ n w p)

  pub listen_started-Kept : (port : ℤ) → Kept P (listen_started uv port)
  unfolding listen_started
  listen_started-Kept port = record { at = λ w p. listen_started-of port w w.app p }

  call-Kept : (c : Call) → Kept P (call uv c)
  call-Kept c = any_call-Kept T.steady uv c

  handle-Kept : Kept P new_handle
  handle-Kept = any_handle-Kept T.steady

  do_bind_and_listen-Kept : (port : ℤ) → Kept P (do_bind_and_listen uv port)
  unfolding do_bind_and_listen
  do_bind_and_listen-Kept port = search (kept, handle-Kept, call-Kept) depth 8

  listen_from-Kept : (n : ℕ) (port : ℤ) → Kept P (listen_from uv n port)
  unfolding listen_from
  listen_from-Kept zero port = pure-Kept (negsuc 0)
  listen_from-Kept (suc n) port = bind-Kept _ _ (do_bind_and_listen-Kept port) λ res.
      if-Kept (is_zero res) _ _ (then-Kept _ _ (listen_started-Kept port) (pure-Kept port))
        (listen_from-Kept n (port +ℤ pos 1))

  pub start_uv_loop-Kept : Kept P (start_uv_loop uv)
  unfolding start_uv_loop
  start_uv_loop-Kept = search (kept, handle-Kept, call-Kept)

  pub start_with_listen-Kept : (port range : ℤ) → Kept P (start_with_listen uv port range)
  unfolding start_with_listen do_listen
  start_with_listen-Kept port range = search (kept, listen_from-Kept, start_uv_loop-Kept) depth 9

  pub node_start-Kept : (params : AppParams) → Kept P (node_start uv params)
  unfolding node_start
  node_start-Kept params = then-Kept _ _ T.locals (
      then-Kept _ _ (T.extras params.extra_peers) (
        bind-Kept _ _ (start_with_listen-Kept params.listen_port params.listen_port_range)
          λ _. pure-Kept tt))

  name-Kept :
      (b : Bool) (port : ℤ)
      → Kept P (get_app >>= λ app. if b then put_app (name_server uv port app) else pure tt)
  name-Kept true port = record { at = T.renames port }
  name-Kept false port = record { at = λ w p. p }

  pub server_start-Kept : (params : AppParams) → Kept P (server_start uv params)
  unfolding server_start
  server_start-Kept params =
      bind-Kept _ _ (start_with_listen-Kept params.listen_port params.listen_port_range)
        λ actual. name-Kept (is_positive actual) actual
