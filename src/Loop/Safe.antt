-- ===== src/Loop/Safe.antt =====
-- Every order of the steps of the two threads of lib/net_handler.cpp.
use tcpserver_cpp_libuv_samp.Base.{ℕ, ◌≡◌, ◌≢◌, ◌∙◌, true, false, some}
use tcpserver_cpp_libuv_samp.Loop.{
  LoopUv, Shared, get_loop, run_on, close_on, walk_on, take_loop, free_loop, BgPoint, unstarted,
  test_stop, in_run, test_again, sleeping, ended, MainPoint, start_flag, start_get, start_async,
  start_thread, started, stop_flag, stop_send, stop_get, stop_on, join, finished, aborted, bg_step,
  System, bg_moved,
}
use tcpserver_cpp_libuv_samp.Loop.Calls.{stopped, IsSound}
use tcpserver_cpp_libuv_samp.Loop.Threads.{
  Blocks, IsHeld, IsEarly, IsLate, IsStopped, bg_step-IsEarly, bg_step-IsLate,
}

abbrev pub IsUnstopped : Shared → Type 0
IsUnstopped s = (l : ℕ) → stopped l s.trace ≡ false

-- What holds at each point of the program's thread.
abbrev pub IsAt : MainPoint → BgPoint → Shared → Type 0
IsAt start_flag b s = (b ≡ unstarted) × IsUnstopped s
IsAt start_get b s = (b ≡ unstarted) × IsUnstopped s
IsAt (start_async l) b s = (b ≡ unstarted) × IsUnstopped s × (s.my_uv_loop ≡ some l)
IsAt start_thread b s = (a : ℕ) × (b ≡ unstarted) × IsHeld a s
IsAt started b s = (a : ℕ) × IsHeld a s × IsEarly a b
IsAt stop_flag b s = (a : ℕ) × IsHeld a s × IsEarly a b
IsAt stop_send b s = (a : ℕ) × IsHeld a s × IsEarly a b × (s.bg_thread_stop ≡ true)
IsAt stop_get b s = (a : ℕ) × IsHeld a s × IsEarly a b × (s.bg_thread_stop ≡ true)
IsAt (stop_on l) b s = IsHeld l s × IsEarly l b × (s.bg_thread_stop ≡ true)
IsAt join b s = (a : ℕ) × IsStopped a s × IsLate a s b
IsAt finished b s = b ≡ ended
IsAt aborted b s = b ≢ sleeping

pub record IsKept (y : System) : Type 0 where
  pub sound : IsSound y.shared
  pub here : IsAt y.main y.bg y.shared

IsEarly-sleeping : (a : ℕ) (b : BgPoint) → IsEarly a b → b ≢ sleeping
IsEarly-sleeping a unstarted e q = absurd e
IsEarly-sleeping a test_stop e q = cc
IsEarly-sleeping a (in_run r) e q = cc
IsEarly-sleeping a test_again e q = cc
IsEarly-sleeping a sleeping e q = absurd e
IsEarly-sleeping a ended e q = cc

IsLate-sleeping : (a : ℕ) (s : Shared) (b : BgPoint) → IsLate a s b → b ≢ sleeping
IsLate-sleeping a s unstarted e q = cc
IsLate-sleeping a s test_stop e q = cc
IsLate-sleeping a s (in_run r) e q = cc
IsLate-sleeping a s test_again e q = cc
IsLate-sleeping a s sleeping e q = absurd e
IsLate-sleeping a s ended e q = cc

-- The loop that is stopped is the one that the background thread runs or will run.
pub IsEarly-IsLate :
    (a : ℕ) (b : BgPoint) (s : Shared) → s.my_uv_loop ≡ some a → IsEarly a b → IsLate a s b
IsEarly-IsLate a unstarted s h e = absurd e
IsEarly-IsLate a test_stop s h e = tt
IsEarly-IsLate a (in_run get_loop) s h e = h
IsEarly-IsLate a (in_run (run_on l)) s h e = (e, h)
IsEarly-IsLate a (in_run (close_on l)) s h e = absurd e
IsEarly-IsLate a (in_run (walk_on l)) s h e = absurd e
IsEarly-IsLate a (in_run take_loop) s h e = absurd e
IsEarly-IsLate a (in_run (free_loop o)) s h e = absurd e
IsEarly-IsLate a test_again s h e = absurd e
IsEarly-IsLate a sleeping s h e = absurd e
IsEarly-IsLate a ended s h e = tt

pub IsAt-sleeping : (m : MainPoint) (b : BgPoint) (s : Shared) → IsAt m b s → b ≢ sleeping
IsAt-sleeping start_flag b s e q = cc
IsAt-sleeping start_get b s e q = cc
IsAt-sleeping (start_async l) b s e q = cc
IsAt-sleeping start_thread b s (a, e, _) q = cc
IsAt-sleeping started b s (a, _, e) q = IsEarly-sleeping a b e q
IsAt-sleeping stop_flag b s (a, _, e) q = IsEarly-sleeping a b e q
IsAt-sleeping stop_send b s (a, _, e, _) q = IsEarly-sleeping a b e q
IsAt-sleeping stop_get b s (a, _, e, _) q = IsEarly-sleeping a b e q
IsAt-sleeping (stop_on l) b s (_, e, _) q = IsEarly-sleeping l b e q
IsAt-sleeping join b s (a, _, e) q = IsLate-sleeping a s b e q
IsAt-sleeping finished b s e q = cc
IsAt-sleeping aborted b s e q = e q

module _ (uv : LoopUv) where
  bg_unstarted : (b : BgPoint) (s : Shared) → b ≡ unstarted → bg_step uv b s ≡ (b, s)
  unfolding bg_step
  bg_unstarted b s e = rw e

  bg_ended : (b : BgPoint) (s : Shared) → b ≡ ended → bg_step uv b s ≡ (b, s)
  unfolding bg_step
  bg_ended b s e = rw e

  pub bg_moved-IsKept :
      (m : MainPoint) (b : BgPoint) (s : Shared)
      → Blocks uv
      → IsSound s
      → IsAt m b s
      → IsKept (bg_moved uv m b s)
  unfolding bg_moved
  bg_moved-IsKept start_flag b s bl h e = rw (bg_unstarted b s e.0) (record { sound = h; here = e })
  bg_moved-IsKept start_get b s bl h e = rw (bg_unstarted b s e.0) (record { sound = h; here = e })
  bg_moved-IsKept (start_async l) b s bl h e =
      rw (bg_unstarted b s e.0) (record { sound = h; here = e })
  bg_moved-IsKept start_thread b s bl h (a, e, k) =
      rw (bg_unstarted b s e) (record { sound = h; here = (a, e, k) })
  bg_moved-IsKept started b s bl h (a, k, e) =
      let (h', k', e', _) = bg_step-IsEarly uv a b s bl h k e in
      record { sound = h'; here = (a, k', e') }
  bg_moved-IsKept stop_flag b s bl h (a, k, e) =
      let (h', k', e', _) = bg_step-IsEarly uv a b s bl h k e in
      record { sound = h'; here = (a, k', e') }
  bg_moved-IsKept stop_send b s bl h (a, k, e, f) =
      let (h', k', e', g) = bg_step-IsEarly uv a b s bl h k e in
      record { sound = h'; here = (a, k', e', g ∙ f) }
  bg_moved-IsKept stop_get b s bl h (a, k, e, f) =
      let (h', k', e', g) = bg_step-IsEarly uv a b s bl h k e in
      record { sound = h'; here = (a, k', e', g ∙ f) }
  bg_moved-IsKept (stop_on l) b s bl h (k, e, f) =
      let (h', k', e', g) = bg_step-IsEarly uv l b s bl h k e in
      record { sound = h'; here = (k', e', g ∙ f) }
  bg_moved-IsKept join b s bl h (a, k, e) =
      let (h', k', e') = bg_step-IsLate uv a b s h k e in record { sound = h'; here = (a, k', e') }
  bg_moved-IsKept finished b s bl h e = rw (bg_ended b s e) (record { sound = h; here = e })
  bg_moved-IsKept aborted b s bl h e = record { sound = h; here = e }
