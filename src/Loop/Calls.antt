-- ===== src/Loop/Calls.antt =====
-- The calls for the loops of lib/net_handler.cpp in their order, and the steps that use only loops
-- that are not deleted.
use tcpserver_cpp_libuv_samp.Base.{
  ℕ, ◌==◌, ◌≤◌, ◌<◌, ◌≡◌, refl, ap, ◌∙◌, arith, Bool, true, false, List, [], ◌∷◌, Option, none,
  some, if◌then◌else◌,
}
use tcpserver_cpp_libuv_samp.Loop.{
  LoopCall, loop_init, loop_run, loop_close, loop_walk, loop_stop, loop_delete, async_init,
  async_send, Shared, logged, get_uv_loop, loop_from,
}

abbrev pub loop_of : LoopCall → ℕ
loop_of (loop_init l) = l
loop_of (loop_run l) = l
loop_of (loop_close l) = l
loop_of (loop_walk l) = l
loop_of (loop_stop l) = l
loop_of (loop_delete l) = l
loop_of (async_init l) = l
loop_of (async_send l) = l

-- Whether a loop was deleted, stopped, or given the handle that wakes it.
abbrev pub deleted : ℕ → List LoopCall → Bool
deleted l [] = false
deleted l (loop_delete j ∷ t) = let before = deleted l t in if j == l then true else before
deleted l (other ∷ t) = deleted l t

abbrev pub stopped : ℕ → List LoopCall → Bool
stopped l [] = false
stopped l (loop_stop j ∷ t) = let before = stopped l t in if j == l then true else before
stopped l (other ∷ t) = stopped l t

abbrev pub opened : ℕ → List LoopCall → Bool
opened l [] = false
opened l (async_init j ∷ t) = let before = opened l t in if j == l then true else before
opened l (other ∷ t) = opened l t

-- No call on a loop behind its `delete`, and no second `delete`.
abbrev pub IsOrderly : List LoopCall → Type 0
IsOrderly [] = Unit
IsOrderly (c ∷ t) = (deleted (loop_of c) t ≡ false) × IsOrderly t

pub record IsSound (s : Shared) : Type 0 where
  pub orderly : IsOrderly s.trace
  pub fresh : (l : ℕ) → s.next_loop ≤ l → deleted l s.trace ≡ false
  pub bound : (l : ℕ) → s.my_uv_loop ≡ some l → l < s.next_loop
  pub live : (l : ℕ) → s.my_uv_loop ≡ some l → deleted l s.trace ≡ false

-- A call that deletes nothing.
pub logged-IsSound :
    (c : LoopCall) (s : Shared)
    → ((l : ℕ) (t : List LoopCall) → deleted l (c ∷ t) ≡ deleted l t)
    → deleted (loop_of c) s.trace ≡ false
    → IsSound s
    → IsSound (logged c s)
logged-IsSound c s keeps ok h = record {
  orderly = (ok, h.orderly);
  fresh = λ l le. keeps l s.trace ∙ h.fresh l le;
  bound = h.bound;
  live = λ l e. keeps l s.trace ∙ h.live l e;
}

-- The `delete` of a loop that the shared field no longer names.
pub delete-IsSound :
    (a : ℕ) (s : Shared)
    → s.my_uv_loop ≡ none
    → deleted a s.trace ≡ false
    → a < s.next_loop
    → IsSound s
    → IsSound (logged (loop_delete a) s)
delete-IsSound a s gone ok lt h = record {
  orderly = (ok, h.orderly);
  fresh = λ l le. let other : (a == l) ≡ false = ground arith in rw other (h.fresh l le);
  bound = λ l e. cc;
  live = λ l e. cc;
}

pub get_uv_loop_held : (s : Shared) (a : ℕ) → s.my_uv_loop ≡ some a → get_uv_loop s ≡ (a, s)
unfolding get_uv_loop
get_uv_loop_held s a e = ap (loop_from s) e

-- `getUvLoop` from a shared field that may be null.
pub record Got (s : Shared) (l : ℕ) (t : Shared) : Type 0 where
  pub sound : IsSound t
  pub holds : t.my_uv_loop ≡ some l
  pub unstopped : (k : ℕ) → stopped k t.trace ≡ stopped k s.trace

pub get_uv_loop-Got : (s : Shared) → IsSound s → Got s (get_uv_loop s).0 (get_uv_loop s).1
unfolding get_uv_loop
get_uv_loop-Got s h = go s.my_uv_loop refl
  where
    go : (o : Option ℕ) → s.my_uv_loop ≡ o → Got s (loop_from s o).0 (loop_from s o).1
    go (some l) e = record { sound = h; holds = e; unstopped = λ k. refl }
    go none e = record {
      sound = record {
        orderly = (h.fresh s.next_loop (omega arith), h.orderly);
        fresh = λ l le. h.fresh l (omega arith);
        bound = λ l q. let same : s.next_loop ≡ l = cc in omega arith;
        live = λ l q. let same : s.next_loop ≡ l = cc in h.fresh l (omega arith);
      };
      holds = refl;
      unstopped = λ k. refl;
    }
