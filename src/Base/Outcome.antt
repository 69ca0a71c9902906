-- ===== src/Base/Outcome.antt =====
-- What a run of the program's code can end in besides a result.

-- An uncaught `std::invalid_argument` or `std::out_of_range`, a failed `assert`, and a use of a
-- null pointer.
pub data Fault : Type 0 where
  invalid_argument out_of_range assertion null_pointer : Fault

pub data Outcome {ℓ} (A : Type ℓ) : Type ℓ where
  ok : A → Outcome A
  fault : Fault → Outcome A

infixl 5 ◌>>=◌
abbrev pub ◌>>=◌ {ℓ κ} :
    {A : Type ℓ} {B : Type κ} (r : Outcome A) (next : A → Outcome B) → Outcome B
ok value >>= next = next value
fault e >>= next = fault e
