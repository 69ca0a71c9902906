-- ===== src/Kept/Handles.antt =====
-- Whole runs of the three programs (lib/app.cpp, node/node.cpp): their start, and any sequence of
-- callbacks from libuv, with the handles on which they call it.
use tcpserver_cpp_libuv_samp.Base.{
  ℕ, zero, suc, ◌+◌, ◌≡◌, refl, List, [], ◌∷◌, Bytes, none, codes, if◌then◌else◌,
}
use tcpserver_cpp_libuv_samp.Base.Int.{ℤ, pos, negsuc, ◌+ℤ◌, is_zero}
use tcpserver_cpp_libuv_samp.World.{
  Kind, App, server_app, client_app, node_app, uv_tcp_init, uv_tcp_bind, uv_listen, uv_async_init,
  client_out, Uv, World, M, call, new_handle, new_client, put_app, ◌>>=◌, ◌>>◌, pure,
}
use tcpserver_cpp_libuv_samp.Client.{new_client_out}
use tcpserver_cpp_libuv_samp.Listen.{
  AppParams, do_bind_and_listen, listen_started_by, listen_started, listen_from, do_listen,
  start_uv_loop, start_with_listen, server_start, node_start,
}
use tcpserver_cpp_libuv_samp.Programs.{connect_clients, client_start}
use tcpserver_cpp_libuv_samp.Frame.{After, After-map}
use tcpserver_cpp_libuv_samp.Kept.{kept, bind-Kept, then-Kept, if-Kept, pure-Kept}
use tcpserver_cpp_libuv_samp.Kept.Streams.{IsSafe, IsClean, call-IsSafe, made-IsFree, made-IsSafe}
use tcpserver_cpp_libuv_samp.Kept.Safe.{Safe, app-IsSafe, connect-Safe}
use tcpserver_cpp_libuv_samp.Kept.Clean.{
  modify_node-Safe, try_out_connections-Safe, destroy_all-Safe, new_client-Safe, stream_laws,
}
use tcpserver_cpp_libuv_samp.Kept.Runs.{Event, run, run-Kept}

put_app-Safe : (a : App) → Safe (put_app a)
put_app-Safe a = record { at = λ w s. app-IsSafe a w s }

module _ (uv : Uv) where
  bind_call-Safe : (h : ℕ) (host : Bytes) (port : ℤ) → Safe (call uv (uv_tcp_bind h host port))
  bind_call-Safe h host port = record {
    at = λ w s. call-IsSafe (uv_tcp_bind h host port) w (λ k. refl) tt s;
  }

  listen_call-Safe : (h backlog : ℕ) → Safe (call uv (uv_listen h backlog))
  listen_call-Safe h backlog = record {
    at = λ w s. call-IsSafe (uv_listen h backlog) w (λ k. refl) tt s;
  }

  async_call-Safe : (h : ℕ) → Safe (call uv (uv_async_init h))
  async_call-Safe h = record { at = λ w s. call-IsSafe (uv_async_init h) w (λ k. refl) tt s }

  new_handle-Safe : Safe new_handle
  new_handle-Safe = record { at = made-IsSafe }

  bound-Safe :
      (h : ℕ) (port : ℤ)
      → Safe (
          call uv (uv_tcp_bind h (codes "0.0.0.0") port) >>= λ res.
          if is_zero res then call uv (uv_listen h 10) else pure res)
  bound-Safe h port = search (kept, bind_call-Safe, listen_call-Safe)

  do_bind_and_listen-Safe : (port : ℤ) → Safe (do_bind_and_listen uv port)
  unfolding do_bind_and_listen
  do_bind_and_listen-Safe port = record {
    at = λ w s.
        let k = w.next_handle in
        let v = record w { next_handle = suc k } in
        (bound-Safe k port).at (record v { trace = uv_tcp_init k ∷ v.trace })
          (call-IsSafe (uv_tcp_init k) v (λ h. refl) (made-IsFree w s).open_handle
            (made-IsSafe w s));
  }

  listen_started_by-Safe : (a : App) (port : ℤ) → Safe (listen_started_by uv a port)
  unfolding listen_started_by
  listen_started_by-Safe (server_app s) port = pure-Kept tt
  listen_started_by-Safe client_app port = pure-Kept tt
  listen_started_by-Safe (node_app n) port = search (kept, put_app-Safe, try_out_connections-Safe)

  listen_started-Safe : (port : ℤ) → Safe (listen_started uv port)
  unfolding listen_started
  listen_started-Safe port = search (kept, listen_started_by-Safe)

  listen_from-Safe : (n : ℕ) (port : ℤ) → Safe (listen_from uv n port)
  unfolding listen_from
  listen_from-Safe zero port = pure-Kept (negsuc 0)
  listen_from-Safe (suc n) port = bind-Kept _ _ (do_bind_and_listen-Safe port) λ res.
      if-Kept (is_zero res) _ _ (then-Kept _ _ (listen_started-Safe port) (pure-Kept port))
        (listen_from-Safe n (port +ℤ pos 1))

  start_uv_loop-Safe : Safe (start_uv_loop uv)
  unfolding start_uv_loop
  start_uv_loop-Safe = search (kept, new_handle-Safe, async_call-Safe)

  start_with_listen-Safe : (port range : ℤ) → Safe (start_with_listen uv port range)
  unfolding start_with_listen do_listen
  start_with_listen-Safe port range = search (kept, listen_from-Safe, start_uv_loop-Safe) depth 9

  server_start-Safe : (params : AppParams) → Safe (server_start uv params)
  unfolding server_start
  server_start-Safe params = search (kept, start_with_listen-Safe, put_app-Safe) depth 9

  node_start-Safe : (params : AppParams) → Safe (node_start uv params)
  unfolding node_start
  node_start-Safe params = search (kept, start_with_listen-Safe, modify_node-Safe) depth 9

  new_out-Safe :
      (k : Kind) (host : Bytes) (port : ℤ) (n : ℕ)
      → Safe (new_client (new_client_out k host port n))
  unfolding new_client_out
  new_out-Safe k host port n = new_client-Safe _ refl

  connect_clients-Safe : (k i : ℕ) (port : ℤ) → Safe (connect_clients uv k i port)
  unfolding connect_clients
  connect_clients-Safe zero i port = pure-Kept []
  connect_clients-Safe (suc k) i port =
      bind-Kept _ _ (new_out-Safe client_out (codes "localhost") (port +ℤ pos i) (3 + i)) λ c.
        bind-Kept _ _ (connect-Safe uv c)
          λ _. bind-Kept _ _ (connect_clients-Safe k (i + 1) port) λ rest. pure-Kept (c ∷ rest)

  client_start-Safe :
      (loop : M (Unit {0})) (params : AppParams) → Safe loop → Safe (client_start uv loop params)
  unfolding client_start
  client_start-Safe loop params h =
      bind-Kept _ _ (connect_clients-Safe 3 0 params.listen_port)
        λ cs. then-Kept _ _ h (destroy_all-Safe uv cs)

-- A world in which no connection has a handle and libuv was not called.
pub record IsNew (w : World) : Type 0 where
  pub no_calls : w.trace ≡ []
  pub no_streams : (i : ℕ) → (w.client i).stream ≡ none

new-IsSafe : (w : World) → IsNew w → IsSafe w
new-IsSafe w n = record {
  clean = rw n.no_calls tt;
  fresh = λ i h p. cc (n.no_streams i);
  single = λ i j h p q. cc (n.no_streams i);
  unclosed = λ i h p. rw n.no_calls refl;
  unused = λ h p. rw n.no_calls refl;
}

from_new :
    {A : Type 0} (m : M A) (w : World) → Safe m → IsNew w → After (λ v. IsClean v.trace) (m w)
from_new m w h n =
    After-map IsSafe (λ v. IsClean v.trace) (m w) (λ v s. s.clean) (h.at w (new-IsSafe w n))

module _ (uv : Uv) where
  -- Each of the programs from its start on, with any sequence of callbacks, whatever libuv answers:
  -- where the run ends without a fault, no `uv_tcp_init`, `uv_tcp_connect`, `uv_accept` (of its
  -- client), `uv_read_start`, `uv_write`, `uv_is_closing` or `uv_fileno` comes after a `uv_close` of
  -- its handle, and no handle is closed twice. `uv_tcp_getpeername` is left out.
  pub run-IsClean :
      (params : AppParams) (es : List Event) (w : World)
      → IsNew w
      → After (λ v. IsClean v.trace) ((node_start uv params >> run uv es) w)
        × After (λ v. IsClean v.trace) ((server_start uv params >> run uv es) w)
        × After (λ v. IsClean v.trace) (client_start uv (run uv es) params w)
  run-IsClean params es w n =
      let loop = run-Kept uv (stream_laws uv) es in
      (
        from_new _ w (then-Kept _ _ (node_start-Safe uv params) loop) n,
        from_new _ w (then-Kept _ _ (server_start-Safe uv params) loop) n,
        from_new _ w (client_start-Safe uv (run uv es) params loop) n,
      )
