-- ===== src/Dict/Sorted.antt =====
-- The order of a `std::map` with `std::string` keys.
use tcpserver_cpp_libuv_samp.Base.{
  ◌≡◌, refl, true, false, [], ◌∷◌, arith, Bytes, All, bytes_eq, Bool-cases, inl, inr,
}
use tcpserver_cpp_libuv_samp.Dict.{Dict, bytes_lt, insert}

bytes_lt_trans : (a b c : Bytes) → bytes_lt a b ≡ true → bytes_lt b c ≡ true → bytes_lt a c ≡ true
unfolding bytes_lt
bytes_lt_trans [] [] c h k = cc
bytes_lt_trans [] (y ∷ t) [] h k = cc
bytes_lt_trans [] (y ∷ t) (z ∷ u) h k = refl
bytes_lt_trans (x ∷ s) [] c h k = cc
bytes_lt_trans (x ∷ s) (y ∷ t) [] h k = cc
bytes_lt_trans (x ∷ s) (y ∷ t) (z ∷ u) h k = ground (arith, bytes_lt_trans s t u)

bytes_lt_total : (a b : Bytes) → bytes_eq a b ≡ false → bytes_lt b a ≡ false → bytes_lt a b ≡ true
unfolding bytes_lt bytes_eq
bytes_lt_total [] [] h k = cc
bytes_lt_total [] (y ∷ t) h k = refl
bytes_lt_total (x ∷ s) [] h k = cc
bytes_lt_total (x ∷ s) (y ∷ t) h k = ground (arith, bytes_lt_total s t)

module _ {V : Type 0} where
  -- Every key is above the given one.
  abbrev pub IsAbove : Bytes → Dict V → Type 0
  IsAbove k = All (λ (e : Bytes × V). bytes_lt k e.0 ≡ true)

  -- The keys increase, so that no key is there twice.
  abbrev pub IsSorted : Dict V → Type 0
  IsSorted [] = Unit
  IsSorted ((k, v) ∷ m) = IsAbove k m × IsSorted m

  IsAbove-trans : (k j : Bytes) (m : Dict V) → bytes_lt k j ≡ true → IsAbove j m → IsAbove k m
  IsAbove-trans k j [] h a = tt
  IsAbove-trans k j ((i, v) ∷ m) h (hi, a) = (bytes_lt_trans k j i h hi, IsAbove-trans k j m h a)

  insert-IsAbove :
      (j k : Bytes) (v : V) (m : Dict V)
      → bytes_lt j k ≡ true
      → IsAbove j m
      → IsAbove j (insert k v m)
  unfolding insert
  insert-IsAbove j k v [] h a = (h, tt)
  insert-IsAbove j k v ((i, u) ∷ m) h (hi, a) = elim (Bool-cases (bytes_eq i k)) [
    | inl e ↦ rw e (hi, a)
    | inr e ↦ elim (Bool-cases (bytes_lt k i)) [
      | inl l ↦ rw (e, l) (h, (hi, a))
      | inr l ↦ rw (e, l) (hi, insert-IsAbove j k v m h a)
    ]
  ]

  pub insert-IsSorted : (k : Bytes) (v : V) (m : Dict V) → IsSorted m → IsSorted (insert k v m)
  unfolding insert
  insert-IsSorted k v [] s = (tt, tt)
  insert-IsSorted k v ((i, u) ∷ m) (a, s) = elim (Bool-cases (bytes_eq i k)) [
    | inl e ↦ rw e (a, s)
    | inr e ↦ elim (Bool-cases (bytes_lt k i)) [
      | inl l ↦ rw (e, l) ((l, IsAbove-trans k i m l a), (a, s))
      | inr l ↦
          rw (e, l) (insert-IsAbove i k v m (bytes_lt_total i k e l) a, insert-IsSorted k v m s)
    ]
  ]
