-- ===== src/Loop.antt =====
-- The loop of lib/net_handler.cpp and the two threads that share it: the program's thread in
-- `startUvLoop` and `stopUvLoop`, and the background thread in `doBgThread` and `runLoop`. Each
-- access to the shared fields is one step, and the threads take their steps in any order.
pub mod Calls
pub mod Threads
pub mod Safe
pub mod Turns
use tcpserver_cpp_libuv_samp.Base.{
  ℕ, suc, Bool, true, false, List, [], ◌∷◌, Option, none, some, if◌then◌else◌,
}
use tcpserver_cpp_libuv_samp.Base.Int.{ℤ, ◌+ℤ◌, is_zero}

-- A call into libuv for a loop, and the `delete` of one. A loop is a number.
pub data LoopCall : Type 0 where
  loop_init loop_run loop_close loop_walk loop_stop loop_delete async_init async_send : ℕ → LoopCall

-- libuv: the results of its calls, whether `uv_run` on a loop returns at this point, and `EBUSY`.
pub record LoopUv : Type 0 where
  pub result : List LoopCall → LoopCall → ℤ
  pub returns : List LoopCall → ℕ → Bool
  pub ebusy : ℤ

-- The fields that the threads share, and the calls so far, newest first. `my_uv_async` is the loop
-- on which the handle was set up.
pub record Shared : Type 0 where
  pub my_uv_loop : Option ℕ
  pub my_uv_async : Option ℕ
  pub bg_thread_stop : Bool
  pub next_loop : ℕ
  pub trace : List LoopCall

abbrev pub logged : LoopCall → Shared → Shared
logged c s = record s { trace = c ∷ s.trace }

-- `getUvLoop`.
abbrev pub loop_from : Shared → Option ℕ → ℕ × Shared
loop_from s (some l) = (l, s)
loop_from s none = (
  s.next_loop,
  record s {
    my_uv_loop = some s.next_loop;
    next_loop = suc s.next_loop;
    trace = loop_init s.next_loop ∷ s.trace;
  },
)

unfoldable pub get_uv_loop : Shared → ℕ × Shared
get_uv_loop s = loop_from s s.my_uv_loop

-- The points of `runLoop`; the last two are `deleteUvLoop`, with its `local`.
pub data RunPoint : Type 0 where
  get_loop : RunPoint
  run_on close_on walk_on : ℕ → RunPoint
  take_loop : RunPoint
  free_loop : Option ℕ → RunPoint

-- The points of the background thread.
pub data BgPoint : Type 0 where
  unstarted test_stop : BgPoint
  in_run : RunPoint → BgPoint
  test_again sleeping ended : BgPoint

-- The points of the program's thread, from the start of `startUvLoop` to the end of `stopUvLoop`.
-- `aborted` is a failed assertion.
pub data MainPoint : Type 0 where
  start_flag start_get : MainPoint
  start_async : ℕ → MainPoint
  start_thread started stop_flag stop_send stop_get : MainPoint
  stop_on : ℕ → MainPoint
  join finished aborted : MainPoint

-- The wait for the background thread.
unfoldable pub join_point : BgPoint → MainPoint
join_point ended = finished
join_point other = join

module _ (uv : LoopUv) where
  -- `uv_loop_close` in `runLoop`; only `EBUSY` leads to the walk over the handles.
  unfoldable pub after_close : ℕ → ℤ → RunPoint
  after_close l res =
      if is_zero res then take_loop else if is_zero (res +ℤ uv.ebusy) then walk_on l else take_loop

  -- A step of `runLoop`; `test_again` is behind its return.
  unfoldable pub run_step : RunPoint → Shared → BgPoint × Shared
  run_step get_loop s = let (l, t) = get_uv_loop s in (in_run (run_on l), logged (loop_run l) t)
  run_step (run_on l) s =
      (if uv.returns s.trace l then in_run (close_on l) else in_run (run_on l), s)
  run_step (close_on l) s =
      (in_run (after_close l (uv.result s.trace (loop_close l))), logged (loop_close l) s)
  run_step (walk_on l) s = (in_run take_loop, logged (loop_walk l) s)
  run_step take_loop s = (in_run (free_loop s.my_uv_loop), record s { my_uv_loop = none })
  run_step (free_loop none) s = (test_again, s)
  run_step (free_loop (some l)) s = (test_again, logged (loop_delete l) s)

  -- A step of `doBgThread`.
  unfoldable pub bg_step : BgPoint → Shared → BgPoint × Shared
  unfolding run_step
  bg_step unstarted s = (unstarted, s)
  bg_step test_stop s = (if s.bg_thread_stop then ended else in_run get_loop, s)
  bg_step (in_run r) s = run_step r s
  bg_step test_again s = (if s.bg_thread_stop then ended else sleeping, s)
  bg_step sleeping s = (test_stop, s)
  bg_step ended s = (ended, s)

  -- `uv_async_send` in `stopUvLoop`, with its assertion.
  unfoldable pub send_async : Option ℕ → Shared → MainPoint × Shared
  send_async none s = (aborted, s)
  send_async (some l) s = (
    if is_zero (uv.result s.trace (async_send l)) then stop_get else aborted,
    logged (async_send l) s,
  )

  -- A step of `startUvLoop` and `stopUvLoop`; `started` is the time between them.
  unfoldable pub main_step : MainPoint → BgPoint → Shared → MainPoint × BgPoint × Shared
  unfolding send_async
  main_step start_flag b s = (start_get, b, record s { bg_thread_stop = false })
  main_step start_get b s = let (l, t) = get_uv_loop s in (start_async l, b, t)
  main_step (start_async l) b s = (
    if is_zero (uv.result s.trace (async_init l)) then start_thread else aborted,
    b,
    logged (async_init l) (record s { my_uv_async = some l }),
  )
  main_step start_thread b s = (started, test_stop, s)
  main_step started b s = (stop_flag, b, s)
  main_step stop_flag b s = (stop_send, b, record s { bg_thread_stop = true })
  main_step stop_send b s = let (m, t) = send_async s.my_uv_async s in (m, b, t)
  main_step stop_get b s = let (l, t) = get_uv_loop s in (stop_on l, b, t)
  main_step (stop_on l) b s = (join, b, logged (loop_stop l) s)
  main_step join b s = (join_point b, b, s)
  main_step finished b s = (finished, b, s)
  main_step aborted b s = (aborted, b, s)

pub data Turn : Type 0 where
  main_turn bg_turn : Turn

pub record System : Type 0 where
  pub main : MainPoint
  pub bg : BgPoint
  pub shared : Shared

-- A step of one of the threads; a failed assertion ends both.
module _ (uv : LoopUv) where
  unfoldable pub bg_moved : MainPoint → BgPoint → Shared → System
  bg_moved aborted b s = record { main = aborted; bg = b; shared = s }
  bg_moved m b s = let (c, t) = bg_step uv b s in record { main = m; bg = c; shared = t }

  unfoldable pub step : Turn → System → System
  step main_turn y =
      let (m, b, t) = main_step uv y.main y.bg y.shared in record { main = m; bg = b; shared = t }
  step bg_turn y = bg_moved y.main y.bg y.shared

  unfoldable pub turns : List Turn → System → System
  turns [] y = y
  turns (t ∷ ts) y = turns ts (step t y)
