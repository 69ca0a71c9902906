-- ===== src/Kept/Streams.antt =====
-- Which handle a connection may use: no call of libuv comes after the `uv_close` of its handle.
use tcpserver_cpp_libuv_samp.Base.{
  ◌⊎◌, ℕ, suc, ◌≤◌, ◌<◌, ◌≡◌, ◌≢◌, refl, ◌==◌, Bool, false, ◌||◌, List, [], ◌∷◌, Option, none, some,
  Bool-cases, inl, inr, arith,
}
use tcpserver_cpp_libuv_samp.World.{
  Client, Call, uv_tcp_init, uv_close, uv_is_closing, uv_read_start, uv_fileno, uv_write,
  uv_tcp_connect, uv_accept, World, set_at,
}

-- The stream that a call works on, for these calls; `uv_accept` gives its client. The calls on the
-- server's handle, on timers and on the async handle have no target here, and neither has
-- `uv_tcp_getpeername`, which `onConnect` makes on the handle that libuv passes to it.
abbrev pub target : Call → Option ℕ
target (uv_tcp_init h) = some h
target (uv_close h) = some h
target (uv_is_closing h) = some h
target (uv_read_start h) = some h
target (uv_fileno h) = some h
target (uv_write h b) = some h
target (uv_tcp_connect h host port) = some h
target (uv_accept server h) = some h
target other = none

abbrev pub closes : ℕ → Call → Bool
closes h (uv_close k) = h == k
closes h other = false

-- The calls, newest first, have closed the handle.
abbrev pub is_closed : ℕ → List Call → Bool
is_closed h [] = false
is_closed h (c ∷ calls) = closes h c || is_closed h calls

abbrev pub IsAllowed : Option ℕ → List Call → Type 0
IsAllowed none calls = Unit
IsAllowed (some h) calls = is_closed h calls ≡ false

-- Each call with a target works on a stream that no earlier call has closed.
abbrev pub IsClean : List Call → Type 0
IsClean [] = Unit
IsClean (c ∷ calls) = IsAllowed (target c) calls × IsClean calls

abbrev pub Holds : World → ℕ → ℕ → Type 0
Holds w i h = (w.client i).stream ≡ some h

-- The calls are clean; a connection's handle is not closed and is no other connection's; handles
-- that are yet to be made are not closed.
pub record IsSafe (w : World) : Type 0 where
  pub clean : IsClean w.trace
  pub fresh : (i h : ℕ) → Holds w i h → h < w.next_handle
  pub single : (i j h : ℕ) → Holds w i h → Holds w j h → i ≡ j
  pub unclosed : (i h : ℕ) → Holds w i h → is_closed h w.trace ≡ false
  pub unused : (h : ℕ) → w.next_handle ≤ h → is_closed h w.trace ≡ false

-- A step that makes no call, and gives no handle to a connection.
pub fewer-IsSafe :
    (w v : World)
    → v.trace ≡ w.trace
    → w.next_handle ≤ v.next_handle
    → ((i h : ℕ) → Holds v i h → Holds w i h)
    → IsSafe w
    → IsSafe v
fewer-IsSafe w v e le sub s = record {
  clean = rw e s.clean;
  fresh = λ i h p. omega (arith, s.fresh i h (sub i h p));
  single = λ i j h p q. s.single i j h (sub i h p) (sub j h q);
  unclosed = λ i h p. rw e (s.unclosed i h (sub i h p));
  unused = λ h p. rw e (s.unused h (omega (arith, le)));
}

-- A write of a connection object that gives it no new handle.
pub set_at-Holds :
    (w : World) (i : ℕ) (c : Client)
    → ((h : ℕ) → c.stream ≡ some h → Holds w i h)
    → (j h : ℕ) → (set_at w.client i c j).stream ≡ some h
    → Holds w j h
set_at-Holds w i c sub j h p = elim (Bool-cases (i == j)) [
  | inl e ↦ let same : i ≡ j = ground arith in rw (← same) (sub h (rw e at p))
  | inr e ↦ rw e at p
]

-- A call that closes nothing.
pub call-IsSafe :
    (c : Call) (w : World)
    → ((h : ℕ) → closes h c ≡ false)
    → IsAllowed (target c) w.trace
    → IsSafe w
    → IsSafe (record w { trace = c ∷ w.trace })
call-IsSafe c w quiet ok s = record {
  clean = (ok, s.clean);
  fresh = s.fresh;
  single = s.single;
  unclosed = λ i h p. rw (quiet h) (s.unclosed i h p);
  unused = λ h p. rw (quiet h) (s.unused h p);
}

-- A handle that is made, that no connection holds, and that is not closed.
pub record IsFree (k : ℕ) (w : World) : Type 0 where
  pub made : k < w.next_handle
  pub free : (i : ℕ) → (w.client i).stream ≢ some k
  pub open_handle : is_closed k w.trace ≡ false

-- A free handle is closed.
pub close-IsSafe :
    (k : ℕ) (w : World) → IsFree k w → IsSafe w → IsSafe (record w { trace = uv_close k ∷ w.trace })
close-IsSafe k w f s = record {
  clean = (f.open_handle, s.clean);
  fresh = s.fresh;
  single = s.single;
  unclosed = λ i h p. elim (Bool-cases (h == k)) [
    | inl e ↦ let same : h ≡ k = ground arith in absurd (f.free i (rw same at p))
    | inr e ↦ rw e (s.unclosed i h p)
  ];
  unused = λ h p. let other : (h == k) ≡ false = ground (arith, f.made) in rw other (s.unused h p);
}

holder :
    (w : World) (i k : ℕ) (c : Client)
    → c.stream ≡ some k
    → (j h : ℕ) → (set_at w.client i c j).stream ≡ some h
    → ((j ≡ i) × (h ≡ k)) ⊎ Holds w j h
holder w i k c e j h p = elim (Bool-cases (i == j)) [
  | inl same ↦ let q : c.stream ≡ some h = rw same at p in inl (ground arith, cc)
  | inr other ↦ inr (rw other at p)
]

-- A connection gets a free handle.
pub hook-IsSafe :
    (i k : ℕ) (c : Client) (w : World)
    → c.stream ≡ some k
    → IsFree k w
    → IsSafe w
    → IsSafe (record w { client = set_at w.client i c })
hook-IsSafe i k c w e f s = record {
  clean = s.clean;
  fresh = λ j h p. elim (holder w i k c e j h p) [
    | inl (_, q) ↦ omega (arith, f.made)
    | inr q ↦ s.fresh j h q
  ];
  single = λ j l h p q. elim (holder w i k c e j h p) [
    | inl (a, x) ↦ elim (holder w i k c e l h q) [
      | inl (b, y) ↦ omega arith
      | inr y ↦ absurd (f.free l (rw x at y))
    ]
    | inr x ↦ elim (holder w i k c e l h q) [
      | inl (b, y) ↦ absurd (f.free j (rw y at x))
      | inr y ↦ s.single j l h x y
    ]
  ];
  unclosed = λ j h p. elim (holder w i k c e j h p) [
    | inl (_, q) ↦ rw q f.open_handle
    | inr q ↦ s.unclosed j h q
  ];
  unused = s.unused;
}

-- The next handle is made, and is free.
pub made-IsFree :
    (w : World) → IsSafe w → IsFree w.next_handle (record w { next_handle = suc w.next_handle })
made-IsFree w s = record {
  made = omega arith;
  free = λ i p. absurd (omega (arith, s.fresh i w.next_handle p));
  open_handle = s.unused w.next_handle (omega arith);
}

pub made-IsSafe : (w : World) → IsSafe w → IsSafe (record w { next_handle = suc w.next_handle })
made-IsSafe w s =
    fewer-IsSafe w (record w { next_handle = suc w.next_handle }) refl (omega arith) (λ i h p. p) s
