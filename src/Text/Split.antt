-- ===== src/Text/Split.antt =====
-- `string::find`, and the two parts of a string around the char that it finds.
use tcpserver_cpp_libuv_samp.Base.{
  ℕ, suc, ◌<◌, ◌≡◌, ◌≢◌, refl, ap, none, some, [], ◌∷◌, ◌++◌, arith, Bytes, All, length, take, drop,
  ◌==◌, Bool-cases, Option-cases, inl, inr,
}
use tcpserver_cpp_libuv_samp.Text.{find}

abbrev pub Lacks : ℕ → Bytes → Type 0
Lacks b = All (λ c. c ≢ b)

pub find_first : (b : ℕ) (p rest : Bytes) → Lacks b p → find b (p ++ b ∷ rest) ≡ some (length p)
unfolding find
find_first b [] rest h = ground arith
find_first b (c ∷ p) rest (hc, hp) = ground (arith, find_first b p rest hp)

pub find-none : (b : ℕ) (s : Bytes) → find b s ≡ none → Lacks b s
unfolding find
find-none b [] h = tt
find-none b (c ∷ s) h = ground (arith, find-none b s)

pub take-length : (p rest : Bytes) → take (length p) (p ++ rest) ≡ p
take-length [] rest = refl
take-length (c ∷ p) rest = ap (◌∷◌ c) (take-length p rest)

pub drop-length : (b : ℕ) (p rest : Bytes) → drop (suc (length p)) (p ++ b ∷ rest) ≡ rest
drop-length b [] rest = refl
drop-length b (c ∷ p) rest = drop-length b p rest

-- A hit splits the string: what is before it has no such char.
pub find-some :
    (b i : ℕ) (s : Bytes)
    → find b s ≡ some i
    → (s ≡ take i s ++ b ∷ drop (suc i) s) × Lacks b (take i s) × (i < length s)
unfolding find
find-some b i [] h = cc
find-some b i (c ∷ s) h = elim (Bool-cases (c == b)) [
  | inl hit ↦ ground arith
  | inr miss ↦ elim (Option-cases (find b s)) [
    | inl e ↦ ground arith
    | inr (j, e) ↦ ground (arith, find-some b j s e)
  ]
]
