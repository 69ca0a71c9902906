-- ===== src/Loop/Threads.antt =====
-- The two threads of lib/net_handler.cpp: what holds at each of their points.
use tcpserver_cpp_libuv_samp.Base.{
  ℕ, ◌<◌, ◌≡◌, refl, Bool, Bool-cases, inl, inr, true, false, List, none, some, if◌then◌else◌,
}
use tcpserver_cpp_libuv_samp.Base.Int.{is_zero, ◌+ℤ◌}
use tcpserver_cpp_libuv_samp.Loop.{
  loop_run, loop_close, loop_walk, LoopCall, LoopUv, Shared, logged, get_loop, run_on, close_on,
  walk_on, take_loop, free_loop, BgPoint, unstarted, test_stop, in_run, test_again, sleeping, ended,
  after_close, run_step, bg_step,
}
use tcpserver_cpp_libuv_samp.Loop.Calls.{
  deleted, stopped, opened, IsSound, logged-IsSound, delete-IsSound, get_uv_loop_held,
}

-- As libuv documents `uv_run`: on a loop with an active handle it does not return before `uv_stop`.
pub record Blocks (uv : LoopUv) : Type 0 where
  pub waits :
      (t : List LoopCall) (l : ℕ) → opened l t ≡ true → stopped l t ≡ false → uv.returns t l ≡ false

-- Before `uv_stop`: the shared field names the loop on which the handle was set up.
pub record IsHeld (a : ℕ) (s : Shared) : Type 0 where
  pub held : s.my_uv_loop ≡ some a
  pub wakes : s.my_uv_async ≡ some a
  pub active : opened a s.trace ≡ true
  pub unstopped : stopped a s.trace ≡ false

-- The points of the background thread before `uv_stop` on the loop.
abbrev pub IsEarly : ℕ → BgPoint → Type 0
IsEarly a test_stop = Unit
IsEarly a (in_run get_loop) = Unit
IsEarly a (in_run (run_on l)) = l ≡ a
IsEarly a ended = Unit
IsEarly a other = ⊥

-- Its points behind `uv_stop`.
abbrev pub IsLate : ℕ → Shared → BgPoint → Type 0
IsLate a s test_stop = Unit
IsLate a s (in_run get_loop) = s.my_uv_loop ≡ some a
IsLate a s (in_run (run_on l)) = (l ≡ a) × (s.my_uv_loop ≡ some a)
IsLate a s (in_run (close_on l)) = (l ≡ a) × (s.my_uv_loop ≡ some a)
IsLate a s (in_run (walk_on l)) = (l ≡ a) × (s.my_uv_loop ≡ some a)
IsLate a s (in_run take_loop) = s.my_uv_loop ≡ some a
IsLate a s (in_run (free_loop o)) =
    (o ≡ some a) × (s.my_uv_loop ≡ none) × (deleted a s.trace ≡ false) × (a < s.next_loop)
IsLate a s test_again = Unit
IsLate a s ended = Unit
IsLate a s other = ⊥

pub record IsStopped (a : ℕ) (s : Shared) : Type 0 where
  pub flag : s.bg_thread_stop ≡ true
  pub stop : stopped a s.trace ≡ true

tested-IsEarly : (a : ℕ) (b : Bool) → IsEarly a (if b then ended else in_run get_loop)
tested-IsEarly a true = tt
tested-IsEarly a false = tt

module _ (uv : LoopUv) where
  pub bg_step-IsEarly :
      (a : ℕ) (b : BgPoint) (s : Shared)
      → Blocks uv
      → IsSound s
      → IsHeld a s
      → IsEarly a b
      → let r = bg_step uv b s in
        IsSound r.1 × IsHeld a r.1 × IsEarly a r.0 × (r.1.bg_thread_stop ≡ s.bg_thread_stop)
  unfolding bg_step run_step
  bg_step-IsEarly a test_stop s bl h k e = (h, k, tested-IsEarly a s.bg_thread_stop, refl)
  bg_step-IsEarly a (in_run get_loop) s bl h k e = rw (get_uv_loop_held s a k.held) (
    logged-IsSound (loop_run a) s (λ l t. refl) (h.live a k.held) h,
    record { held = k.held; wakes = k.wakes; active = k.active; unstopped = k.unstopped },
    refl,
    refl,
  )
  bg_step-IsEarly a (in_run (run_on l)) s bl h k e =
      let waits : uv.returns s.trace l ≡ false =
        bl.waits s.trace l (rw e k.active) (rw e k.unstopped) in
      rw waits (h, k, e, refl)
  bg_step-IsEarly a ended s bl h k e = (h, k, tt, refl)
  bg_step-IsEarly a unstarted s bl h k e = absurd e
  bg_step-IsEarly a (in_run (close_on l)) s bl h k e = absurd e
  bg_step-IsEarly a (in_run (walk_on l)) s bl h k e = absurd e
  bg_step-IsEarly a (in_run take_loop) s bl h k e = absurd e
  bg_step-IsEarly a (in_run (free_loop o)) s bl h k e = absurd e
  bg_step-IsEarly a test_again s bl h k e = absurd e
  bg_step-IsEarly a sleeping s bl h k e = absurd e

  after_close-IsLate :
      (a l : ℕ) (s : Shared)
      → (l ≡ a) × (s.my_uv_loop ≡ some a)
      → IsLate a
          (logged (loop_close l) s)
          (in_run (after_close uv l (uv.result s.trace (loop_close l))))
  unfolding after_close
  after_close-IsLate a l s e =
      let res = uv.result s.trace (loop_close l) in
      elim (Bool-cases (is_zero res)) [
        | inl q ↦ rw q e.1
        | inr q ↦
            rw q
              (elim (Bool-cases (is_zero (res +ℤ uv.ebusy))) [ inl x ↦ rw x e | inr x ↦ rw x e.1 ])
      ]

  pub bg_step-IsLate :
      (a : ℕ) (b : BgPoint) (s : Shared)
      → IsSound s
      → IsStopped a s
      → IsLate a s b
      → let r = bg_step uv b s in IsSound r.1 × IsStopped a r.1 × IsLate a r.1 r.0
  unfolding bg_step run_step
  bg_step-IsLate a test_stop s h k e = (h, k, rw k.flag tt)
  bg_step-IsLate a (in_run get_loop) s h k e = rw (get_uv_loop_held s a e) (
    logged-IsSound (loop_run a) s (λ l t. refl) (h.live a e) h,
    record { flag = k.flag; stop = k.stop },
    (refl, e),
  )
  bg_step-IsLate a (in_run (run_on l)) s h k e = elim (Bool-cases (uv.returns s.trace l)) [
    | inl q ↦ rw q (h, k, e)
    | inr q ↦ rw q (h, k, e)
  ]
  bg_step-IsLate a (in_run (close_on l)) s h k e = (
    logged-IsSound (loop_close l) s (λ j t. refl) (rw e.0 (h.live a e.1)) h,
    record { flag = k.flag; stop = k.stop },
    after_close-IsLate a l s e,
  )
  bg_step-IsLate a (in_run (walk_on l)) s h k e = (
    logged-IsSound (loop_walk l) s (λ j t. refl) (rw e.0 (h.live a e.1)) h,
    record { flag = k.flag; stop = k.stop },
    e.1,
  )
  bg_step-IsLate a (in_run take_loop) s h k e = (
    record { orderly = h.orderly; fresh = h.fresh; bound = λ l q. cc; live = λ l q. cc },
    record { flag = k.flag; stop = k.stop },
    (e, refl, h.live a e, h.bound a e),
  )
  bg_step-IsLate a (in_run (free_loop none)) s h k e = cc
  bg_step-IsLate a (in_run (free_loop (some l))) s h k (e, gone, ok, lt) =
      let same : l ≡ a = cc in
      (
        delete-IsSound l s gone (rw same ok) (rw same lt) h,
        record { flag = k.flag; stop = k.stop },
        tt,
      )
  bg_step-IsLate a test_again s h k e = (h, k, rw k.flag tt)
  bg_step-IsLate a ended s h k e = (h, k, tt)
  bg_step-IsLate a unstarted s h k e = absurd e
  bg_step-IsLate a sleeping s h k e = absurd e
