-- ===== src/Dict.antt =====
-- `std::map<std::string, V>`: the entries in the order of their keys.
pub mod Sorted
use tcpserver_cpp_libuv_samp.Base.{
  ◌≡◌, refl, Bool, true, false, List, [], ◌∷◌, Option, none, some, arith, Bytes, bytes_eq,
  bytes_eq_iff, All, Bool-cases, inl, inr, ltb, ◌==◌, if◌then◌else◌,
}
use mathlib.Core.Path.{subst}

-- `operator<` of `std::string`.
unfoldable pub bytes_lt : Bytes → Bytes → Bool
bytes_lt [] [] = false
bytes_lt [] (d ∷ t) = true
bytes_lt (c ∷ s) [] = false
bytes_lt (c ∷ s) (d ∷ t) = let rest = bytes_lt s t in if c == d then rest else ltb c d

abbrev pub Dict : Type 0 → Type 0
Dict V = List (Bytes × V)

module _ {V : Type 0} where
  unfoldable pub lookup : Bytes → Dict V → Option V
  lookup key [] = none
  lookup key ((first, value) ∷ rest) = if bytes_eq first key then some value else lookup key rest

  -- `m[key] = value`
  unfoldable pub insert : Bytes → V → Dict V → Dict V
  insert key value [] = (key, value) ∷ []
  insert key value ((first, old) ∷ rest) =
      let later = (first, old) ∷ insert key value rest in
      if bytes_eq first key
      then (first, value) ∷ rest
      else if bytes_lt key first
      then (key, value) ∷ (first, old) ∷ rest
      else later

  -- Only the entry of the key changes.
  pub lookup-insert :
      (key k : Bytes) (value : V) (dict : Dict V)
      → lookup k (insert key value dict) ≡ (if bytes_eq key k then some value else lookup k dict)
  unfolding insert lookup
  lookup-insert key k value [] = refl
  lookup-insert key k value ((first, old) ∷ rest) = ground (
    arith,
    bytes_eq_iff key k,
    bytes_eq_iff first key,
    bytes_eq_iff first k,
    lookup-insert key k value rest,
  )

  -- What holds of every entry, and of the new one.
  pub insert-All :
      (P : Bytes × V → Type 0) (key : Bytes) (value : V) (dict : Dict V)
      → P (key, value)
      → All P dict
      → All P (insert key value dict)
  unfolding insert
  insert-All P key value [] p h = (p, tt)
  insert-All P key value ((first, old) ∷ rest) p (h, hs) = elim (Bool-cases (bytes_eq first key)) [
    | inl e ↦ let same : first ≡ key = (bytes_eq_iff first key).0 e in rw (e, same) (p, hs)
    | inr e ↦ elim (Bool-cases (bytes_lt key first)) [
      | inl l ↦ rw (e, l) (p, (h, hs))
      | inr l ↦ rw (e, l) (h, insert-All P key value rest p hs)
    ]
  ]

  pub lookup-All :
      (P : Bytes × V → Type 0) (key : Bytes) (value : V) (dict : Dict V)
      → All P dict
      → lookup key dict ≡ some value
      → P (key, value)
  unfolding lookup
  lookup-All P key value [] h e = cc
  lookup-All P key value ((first, old) ∷ rest) (h, hs) e = elim (Bool-cases (bytes_eq first key)) [
    | inl hit ↦
        let same : first ≡ key = (bytes_eq_iff first key).0 hit in
        let found : some old ≡ some value = rw hit at e in
        let value_of : old ≡ value = cc in
        subst (λ k. P (k, value)) same (subst (λ v. P (first, v)) value_of h)
    | inr miss ↦ lookup-All P key value rest hs (rw miss at e)
  ]
