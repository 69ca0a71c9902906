-- ===== src/Kept/Runs.antt =====
-- Whole runs of a node: `NodeApp::start` of node/node.cpp, and then any sequence of callbacks. The
-- rules for runs hold of any predicate with the laws.
use tcpserver_cpp_libuv_samp.Base.{
  Bool, true, false, ℕ, ◌≡◌, List, [], ◌∷◌, Bytes, Option, none, some,
}
use tcpserver_cpp_libuv_samp.Base.Int.{ℤ}
use tcpserver_cpp_libuv_samp.World.{Node, node_app, Uv, World, M, pure, ◌>>◌}
use tcpserver_cpp_libuv_samp.Node.Trying.{AppBounded}
use tcpserver_cpp_libuv_samp.Frame.{After}
use tcpserver_cpp_libuv_samp.Dispatch.{
  dispatch, close_callback, read_callback, connect_callback, timer_callback, write_callback,
  connection_callback,
}
use tcpserver_cpp_libuv_samp.Listen.{AppParams, node_start}
use tcpserver_cpp_libuv_samp.Kept.{Kept, Laws, then-Kept, pure-Kept}
use tcpserver_cpp_libuv_samp.Kept.Starts.{node_start-Kept}
use tcpserver_cpp_libuv_samp.Kept.Tables.{table_starts, table_laws}
use tcpserver_cpp_libuv_samp.Kept.Candidates.{IsBounded-TableRule}
use tcpserver_cpp_libuv_samp.Kept.Callbacks.{
  on_read-Kept, on_write-Kept, on_connect-Kept, on_timer-Kept,
}

-- A callback from libuv with what libuv reports in it; `peer` is the connection that the handle or
-- the request names.
pub data Event : Type 0 where
  read_done : (peer : Option ℕ) (count : ℤ) (buf : Option Bytes) → Event
  write_done : (peer : Option (Option ℕ)) (status : ℤ) → Event
  connect_done : (peer : Option ℕ) (handle : ℕ) (status : ℤ) → Event
  timer_fired : (peer : Option ℕ) → Event
  close_done : (peer : Option ℕ) (handle : ℕ) → Event
  new_connection : (set : Bool) (server : ℕ) (status : ℤ) → Event

module _ (uv : Uv) where
  unfoldable pub on_event : Event → M (Unit {0})
  on_event (Event.read_done peer count buf) = read_callback uv peer count buf
  on_event (Event.write_done peer status) = write_callback uv peer status
  on_event (Event.connect_done peer handle status) = connect_callback uv peer handle status
  on_event (Event.timer_fired peer) = timer_callback uv peer
  on_event (Event.close_done peer handle) = close_callback uv peer handle
  on_event (Event.new_connection set server status) = connection_callback uv set server status

  -- The callbacks in their order.
  unfoldable pub run : List Event → M (Unit {0})
  run [] = pure tt
  run (e ∷ es) = on_event e >> run es

module _ (uv : Uv) {P : World → Type 0} (L : Laws uv P) where
  dispatch-Kept :
      (o : Option ℕ) (f : ℕ → M (Unit {0})) → ((i : ℕ) → Kept P (f i)) → Kept P (dispatch o f)
  unfolding dispatch
  dispatch-Kept none f h = pure-Kept tt
  dispatch-Kept (some i) f h = h i

  write_callback-Kept : (o : Option (Option ℕ)) (status : ℤ) → Kept P (write_callback uv o status)
  unfolding write_callback
  write_callback-Kept none status = pure-Kept tt
  write_callback-Kept (some o) status = dispatch-Kept o _ λ i. on_write-Kept uv L i status

  on_event-Kept : (e : Event) → Kept P (on_event uv e)
  unfolding on_event read_callback connect_callback timer_callback close_callback
      connection_callback
  on_event-Kept (Event.read_done o count buf) = dispatch-Kept o _ λ i. on_read-Kept uv L i count buf
  on_event-Kept (Event.write_done o status) = write_callback-Kept o status
  on_event-Kept (Event.connect_done o handle status) =
      dispatch-Kept o _ λ i. on_connect-Kept uv L i handle status
  on_event-Kept (Event.timer_fired o) = dispatch-Kept o _ λ i. on_timer-Kept uv L i
  on_event-Kept (Event.close_done o handle) = dispatch-Kept o _ λ i. L.ends i handle
  on_event-Kept (Event.new_connection true server status) = L.accepts server status
  on_event-Kept (Event.new_connection false server status) = pure-Kept tt

  pub run-Kept : (es : List Event) → Kept P (run uv es)
  unfolding run
  run-Kept [] = pure-Kept tt
  run-Kept (e ∷ es) = then-Kept _ _ (on_event-Kept e) (run-Kept es)

module _ (uv : Uv) where
  -- A node that starts with no candidates: after its start and any sequence of callbacks that end
  -- without a fault, whatever the peers send and libuv answers, every candidate may be tried at
  -- least once, was tried at most as often as it may be, and was counted as connected at most as
  -- often as it was tried.
  pub run-AppBounded :
      (params : AppParams) (es : List Event) (n : Node) (w : World)
      → w.app ≡ node_app n
      → n.cands ≡ []
      → After (λ v. AppBounded v.app) ((node_start uv params >> run uv es) w)
  run-AppBounded params es n w a none_yet =
      let both =
        then-Kept _ _ (node_start-Kept uv (table_starts Unit IsBounded-TableRule uv) params)
          (run-Kept uv (table_laws Unit IsBounded-TableRule uv) es) in
      both.at w (rw (a, none_yet) tt)
