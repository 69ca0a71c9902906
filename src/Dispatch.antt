-- ===== src/Dispatch.antt =====
-- The static functions that libuv calls (lib/net_client.cpp, lib/net_handler.cpp, node/peer_conn.cpp): each finds the
-- connection object in the `data` of its handle or request, and returns if there is none.
use tcpserver_cpp_libuv_samp.Base.{ℕ, Bool, true, false, Option, none, some, Bytes}
use tcpserver_cpp_libuv_samp.Base.Int.{ℤ}
use tcpserver_cpp_libuv_samp.World.{Uv, M, pure}
use tcpserver_cpp_libuv_samp.Client.{on_close}
use tcpserver_cpp_libuv_samp.Events.{on_read, on_write, on_connect, on_timer, on_new_connection}

unfoldable pub dispatch : Option ℕ → (ℕ → M (Unit {0})) → M (Unit {0})
dispatch none f = pure tt
dispatch (some i) f = f i

module _ (uv : Uv) where
  unfoldable pub close_callback : Option ℕ → ℕ → M (Unit {0})
  close_callback peer handle = dispatch peer λ i. on_close uv i handle

  unfoldable pub read_callback : Option ℕ → ℤ → Option Bytes → M (Unit {0})
  read_callback peer count buf = dispatch peer λ i. on_read uv i count buf

  unfoldable pub connect_callback : Option ℕ → ℕ → ℤ → M (Unit {0})
  connect_callback peer handle status = dispatch peer λ i. on_connect uv i handle status

  unfoldable pub timer_callback : Option ℕ → M (Unit {0})
  timer_callback peer = dispatch peer λ i. on_timer uv i

  -- `NetHandler::on_new_connection`; `set` tells whether the handler is there.
  unfoldable pub connection_callback : (set : Bool) (server : ℕ) (status : ℤ) → M (Unit {0})
  connection_callback true server status = on_new_connection uv server status
  connection_callback false server status = pure tt

  -- The `data` of a write's request is a `UvWriteRequest`, which names the connection; both are
  -- deleted behind the callback, which is left out here.
  unfoldable pub write_callback : Option (Option ℕ) → ℤ → M (Unit {0})
  write_callback none status = pure tt
  write_callback (some socket) status = dispatch socket λ i. on_write uv i status
