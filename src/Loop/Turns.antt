-- ===== src/Loop/Turns.antt =====
-- Runs of the two threads of lib/net_handler.cpp: the calls on the loops, and the end of `stop`.
use tcpserver_cpp_libuv_samp.Base.{
  ℕ, ◌==◌, ==_iff, ◌≡◌, ◌≢◌, refl, ◌∙◌, Bool, Bool-cases, inl, inr, true, false, List, [], ◌∷◌,
  Option, none, some,
}
use tcpserver_cpp_libuv_samp.Base.Int.{is_zero}
use tcpserver_cpp_libuv_samp.Loop.{
  loop_stop, async_init, async_send, LoopUv, Shared, logged, BgPoint, unstarted, test_stop, in_run,
  test_again, sleeping, ended, MainPoint, start_flag, start_get, start_async, start_thread, started,
  stop_flag, stop_send, stop_get, stop_on, join, finished, aborted, send_async, join_point,
  main_step, Turn, main_turn, bg_turn, System, step, turns,
}
use tcpserver_cpp_libuv_samp.Loop.Calls.{
  IsOrderly, IsSound, logged-IsSound, get_uv_loop_held, get_uv_loop-Got,
}
use tcpserver_cpp_libuv_samp.Loop.Threads.{Blocks, IsHeld, IsEarly, IsLate, IsStopped}
use tcpserver_cpp_libuv_samp.Loop.Safe.{
  IsAt, IsKept, IsEarly-IsLate, IsAt-sleeping, bg_moved-IsKept,
}

-- Before `startUvLoop`: there is no loop and no thread. Behind `doListen` of `startWithListen` a loop is
-- there already (`getUvLoop`); the states are the same once `startUvLoop` has called `getUvLoop`.
abbrev pub new_system : Bool → System
new_system flag = record {
  main = start_flag;
  bg = unstarted;
  shared = record {
    my_uv_loop = none;
    my_uv_async = none;
    bg_thread_stop = flag;
    next_loop = 0;
    trace = [];
  };
}

flag-IsSound : (flag : Bool) (s : Shared) → IsSound s → IsSound (record s { bg_thread_stop = flag })
flag-IsSound flag s h = record {
  orderly = h.orderly;
  fresh = h.fresh;
  bound = h.bound;
  live = h.live;
}

join_point-IsAt :
    (a : ℕ) (b : BgPoint) (s : Shared) → IsStopped a s → IsLate a s b → IsAt (join_point b) b s
unfolding join_point
join_point-IsAt a unstarted s k e = (a, k, e)
join_point-IsAt a test_stop s k e = (a, k, e)
join_point-IsAt a (in_run r) s k e = (a, k, e)
join_point-IsAt a test_again s k e = (a, k, e)
join_point-IsAt a sleeping s k e = (a, k, e)
join_point-IsAt a ended s k e = refl

module _ (uv : LoopUv) where
  abbrev moved : MainPoint × BgPoint × Shared → System
  moved (m, b, t) = record { main = m; bg = b; shared = t }

  start_async-IsKept :
      (l : ℕ) (b : BgPoint) (s : Shared)
      → IsSound s
      → IsAt (start_async l) b s
      → IsKept (moved (main_step uv (start_async l) b s))
  unfolding main_step
  start_async-IsKept l b s h (e, quiet, held) = record {
    sound =
        logged-IsSound (async_init l) (record s { my_uv_async = some l }) (λ j t. refl)
          (h.live l held)
          (record { orderly = h.orderly; fresh = h.fresh; bound = h.bound; live = h.live });
    here =
        let self : (l == l) ≡ true = (==_iff l l).1 refl in
        elim (Bool-cases (is_zero (uv.result s.trace (async_init l)))) [
          | inl q ↦
              rw q
                (l, e, record { held = held; wakes = refl; active = rw self; unstopped = quiet l })
          | inr q ↦ rw q (λ p. cc)
        ];
  }

  stop_send-IsKept :
      (a : ℕ) (o : Option ℕ) (b : BgPoint) (s : Shared)
      → o ≡ some a
      → IsSound s
      → IsHeld a s × IsEarly a b × (s.bg_thread_stop ≡ true)
      → IsKept (moved ((send_async uv o s).0, b, (send_async uv o s).1))
  unfolding send_async
  stop_send-IsKept a none b s p h w = cc
  stop_send-IsKept a (some l) b s p h (k, e, f) =
      let same : l ≡ a = cc in
      record {
        sound = logged-IsSound (async_send l) s (λ j t. refl) (rw same (h.live a k.held)) h;
        here = elim (Bool-cases (is_zero (uv.result s.trace (async_send l)))) [
          | inl q ↦ rw q (
            a,
            record { held = k.held; wakes = k.wakes; active = k.active; unstopped = k.unstopped },
            e,
            f,
          )
          | inr q ↦ rw q (IsAt-sleeping started b s (a, k, e))
        ];
      }

  main_step-IsKept :
      (m : MainPoint) (b : BgPoint) (s : Shared)
      → IsSound s
      → IsAt m b s
      → IsKept (moved (main_step uv m b s))
  unfolding main_step
  main_step-IsKept start_flag b s h e = record { sound = flag-IsSound false s h; here = e }
  main_step-IsKept start_get b s h e =
      let g = get_uv_loop-Got s h in
      record { sound = g.sound; here = (e.0, λ l. g.unstopped l ∙ e.1 l, g.holds) }
  main_step-IsKept (start_async l) b s h e = start_async-IsKept l b s h e
  main_step-IsKept start_thread b s h (a, e, k) = record { sound = h; here = (a, k, tt) }
  main_step-IsKept started b s h e = record { sound = h; here = e }
  main_step-IsKept stop_flag b s h (a, k, e) = record {
    sound = flag-IsSound true s h;
    here = (
      a,
      record { held = k.held; wakes = k.wakes; active = k.active; unstopped = k.unstopped },
      e,
      refl,
    );
  }
  main_step-IsKept stop_send b s h (a, k, e, f) =
      stop_send-IsKept a s.my_uv_async b s k.wakes h (k, e, f)
  main_step-IsKept stop_get b s h (a, k, e, f) =
      rw (get_uv_loop_held s a k.held) (record { sound = h; here = (k, e, f) })
  main_step-IsKept (stop_on l) b s h (k, e, f) =
      let self : (l == l) ≡ true = (==_iff l l).1 refl in
      record {
        sound = logged-IsSound (loop_stop l) s (λ j t. refl) (h.live l k.held) h;
        here = (
          l,
          record { flag = f; stop = rw self },
          IsEarly-IsLate l b (logged (loop_stop l) s) k.held e,
        );
      }
  main_step-IsKept join b s h (a, k, e) = record { sound = h; here = join_point-IsAt a b s k e }
  main_step-IsKept finished b s h e = record { sound = h; here = e }
  main_step-IsKept aborted b s h e = record { sound = h; here = e }

  step-IsKept : (t : Turn) (y : System) → Blocks uv → IsKept y → IsKept (step uv t y)
  unfolding step
  step-IsKept main_turn y bl k = main_step-IsKept y.main y.bg y.shared k.sound k.here
  step-IsKept bg_turn y bl k = bg_moved-IsKept uv y.main y.bg y.shared bl k.sound k.here

  pub turns-IsKept : (ts : List Turn) (y : System) → Blocks uv → IsKept y → IsKept (turns uv ts y)
  unfolding turns
  turns-IsKept [] y bl k = k
  turns-IsKept (t ∷ ts) y bl k = turns-IsKept ts (step uv t y) bl (step-IsKept t y bl k)

  pub new_system-IsKept : (flag : Bool) → IsKept (new_system flag)
  new_system-IsKept flag = record {
    sound = record { orderly = tt; fresh = λ l e. refl; bound = λ l e. cc; live = λ l e. cc };
    here = (refl, λ l. refl);
  }

  -- The two threads from `startUvLoop` to the end of `stopUvLoop`, in any order of their steps,
  -- where `uv_run` on a loop with an active handle does not return before `uv_stop`: no call is made
  -- on a loop behind its `delete`, in either thread, no loop is deleted twice, and the background
  -- thread never comes to the sleep, so that it never starts a second run of the loop.
  pub turns-IsOrderly :
      (flag : Bool) (ts : List Turn)
      → Blocks uv
      → let y = turns uv ts (new_system flag) in IsOrderly y.shared.trace × (y.bg ≢ sleeping)
  turns-IsOrderly flag ts bl =
      let y = turns uv ts (new_system flag) in
      let k = turns-IsKept ts (new_system flag) bl (new_system-IsKept flag) in
      (k.sound.orderly, IsAt-sleeping y.main y.bg y.shared k.here)
