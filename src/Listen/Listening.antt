-- ===== src/Listen/Listening.antt =====
-- `startWithListen` (lib/net_handler.cpp): the port and the loop.
use tcpserver_cpp_libuv_samp.Base.{
  ℕ, suc, ◌≤◌, ◌≡◌, refl, ap, Bool, true, false, Bool-cases, inl, inr, List, ◌∷◌, if◌then◌else◌,
}
use tcpserver_cpp_libuv_samp.Base.Int.{ℤ, is_zero}
use tcpserver_cpp_libuv_samp.World.{Call, require, pure, ◌>>◌, uv_async_init, Uv, World}
use tcpserver_cpp_libuv_samp.Client.{is_positive}
use tcpserver_cpp_libuv_samp.Listen.{
  next_ports, listen_from, do_listen, start_uv_loop, start_with_listen,
}
use tcpserver_cpp_libuv_samp.Listen.Ports.{next_ports_bounds, Returns, Returns-bind}
use tcpserver_cpp_libuv_samp.Listen.Tries.{Listens, Listened, listen_from-Listened}

module _ (uv : Uv) where
  -- The wake-up handle of the loop is made by the last call.
  abbrev pub HasWakeUp : List Call → Type 0
  HasWakeUp t =
      (handle : ℕ) × (before : List Call) × (t ≡ uv_async_init handle ∷ before)
      × (is_zero (uv.result before (uv_async_init handle)) ≡ true)

  -- The loop is started for a positive port, and for no other.
  abbrev pub IsServed : ℤ → World → Type 0
  IsServed p v = if is_positive p then HasWakeUp v.trace else Unit

  -- The port of the start, with the loop.
  abbrev Begun : ℕ → ℤ → World → ℤ → World → Type 0
  Begun n port w p v = Listened uv n port w.next_handle w.trace p v × IsServed p v

  -- The world in which the loop has its wake-up handle.
  abbrev wake_world : World → World
  wake_world v = record v {
    next_handle = suc v.next_handle;
    trace = uv_async_init v.next_handle ∷ v.trace;
  }

  abbrev wakes : World → Bool
  wakes v = is_zero (uv.result v.trace (uv_async_init v.next_handle))

  wake-Listens :
      (n : ℕ) (port : ℤ) (h : ℕ) (t : List Call) (p : ℤ) (v : World)
      → Listens uv n port h t p v
      → Listens uv n port h t p (wake_world v)
  wake-Listens n port h t p v l = record {
    tries = l.tries;
    in_range = l.in_range;
    in_order = l.in_order;
    server = l.server;
    before = l.before;
    refused = l.refused;
    bound = l.bound;
    listening = l.listening;
    behind = (
      uv_async_init v.next_handle ∷ l.behind.0,
      ap (◌∷◌ (uv_async_init v.next_handle)) l.behind.1,
    );
    named = l.named;
  }

  start_uv_loop-Begun :
      (n : ℕ) (port p : ℤ) (w v : World)
      → is_positive p ≡ true
      → Listens uv n port w.next_handle w.trace p v
      → Returns (Begun n port w) ((start_uv_loop uv >> pure p) v)
  unfolding start_uv_loop
  start_uv_loop-Begun n port p w v up l = go (wakes v) refl
    where
      go :
          (b : Bool) → wakes v ≡ b → Returns (Begun n port w) ((require b >> pure p) (wake_world v))
      go true e = (inr (wake-Listens n port w.next_handle w.trace p v l), rw up (_, _, refl, e))
      go false e = tt

  begun :
      (n : ℕ) (port p : ℤ) (w v : World)
      → Listened uv n port w.next_handle w.trace p v
      → Returns
          (Begun n port w)
          ((if is_positive p then (start_uv_loop uv >> pure p) else pure p) v)
  begun n port p w v (inl (e, r)) = rw e (inl (refl, r), tt)
  begun n port p w v (inr l) = elim (Bool-cases (is_positive p)) [
    | inl up ↦ rw up (start_uv_loop-Begun n port p w v up l)
    | inr down ↦ rw down (inr l, rw down tt)
  ]

  -- The start of the listening side with a range of ports, whatever libuv answers: where it ends
  -- without a fault, it has tried one port after another from the given one on, at least one and at
  -- most ten. Either libuv has refused to bind each of them, or to listen on it, and the result is
  -- -1; or the result is the first port for which libuv has taken both calls, all calls after that
  -- come behind these two, and a node has its name from that port. The last call makes the wake-up
  -- handle of the loop if the result is positive, with success by the active assertion.
  pub start_with_listen-Listened :
      (port range : ℤ) (w : World)
      → (1 ≤ next_ports range)
        × (next_ports range ≤ 10)
        × Returns
            (λ p v. Listened uv (next_ports range) port w.next_handle w.trace p v × IsServed p v)
            (start_with_listen uv port range w)
  unfolding start_with_listen do_listen
  start_with_listen-Listened port range w =
      let n = next_ports range in
      let (low, high) = next_ports_bounds range in
      (
        low,
        high,
        Returns-bind (Listened uv n port w.next_handle w.trace) (Begun n port w)
            (listen_from uv n port) _ w (listen_from-Listened uv n port w)
            λ p v l. begun n port p w v l,
      )
