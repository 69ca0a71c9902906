-- ===== src/Text/Decimal.antt =====
-- `stoi` on the print of `to_string`.
use tcpserver_cpp_libuv_samp.Base.{
  append-nil, ℕ, zero, suc, ◌+◌, ◌/◌, ◌%◌, ◌≤◌, ◌<◌, ◌≡◌, refl, ◌∙◌, false, [], ◌∷◌, ◌++◌,
  append_assoc, some, arith, Bytes, All, All-append, ltb, Bool-cases, inl, inr,
}
use tcpserver_cpp_libuv_samp.Base.Int.{ℤ, pos, negsuc, IsInt}
use tcpserver_cpp_libuv_samp.Base.Outcome.{ok}
use tcpserver_cpp_libuv_samp.Text.{
  is_digit, digits, decimal, to_string, skip_spaces, read_digits, magnitude, to_int, signed, stoi,
}

abbrev pub IsDigit : ℕ → Type 0
IsDigit c = (b'0' ≤ c) × (c ≤ b'9')

digits-IsDigit : (f n : ℕ) → All IsDigit (digits f n)
unfolding digits
digits-IsDigit zero n = tt
digits-IsDigit (suc f) n = elim (Bool-cases (ltb n 10)) [
  | inl small ↦ rw small (ground arith)
  | inr big ↦
      rw big (All-append IsDigit (digits f (n / 10)) _ (digits-IsDigit f (n / 10)) (omega arith))
]

pub decimal-IsDigit : (n : ℕ) → All IsDigit (decimal n)
unfolding decimal
decimal-IsDigit n = digits-IsDigit (suc n) n

-- What follows the digits does not begin with one.
abbrev pub Stops : Bytes → Type 0
Stops [] = Unit {0}
Stops (c ∷ s) = is_digit c ≡ false

-- A print as a first digit and the others.
digits-cons : (f n : ℕ) → n < f → (c : ℕ) × (s : Bytes) × (digits f n ≡ c ∷ s) × IsDigit c
unfolding digits
digits-cons zero n h = elim h [ ]
digits-cons (suc f) n h = elim (Bool-cases (ltb n 10)) [
  | inl small ↦ (b'0' + n, [], rw small, ground arith)
  | inr big ↦
      let (c, s, e, d) = digits-cons f (n / 10) (ground arith) in
      (c, s ++ (b'0' + n % 10) ∷ [], rw (big, e), d)
]

pub decimal-cons : (n : ℕ) → (c : ℕ) × (s : Bytes) × (decimal n ≡ c ∷ s) × IsDigit c
unfolding decimal
decimal-cons n = digits-cons (suc n) n (omega arith)

-- Reading on after the print of a number, with nothing read before it.
read_digits-digits :
    (f n : ℕ) (rest : Bytes) → n < f → read_digits 0 (digits f n ++ rest) ≡ read_digits n rest
unfolding digits read_digits
read_digits-digits zero n rest h = elim h [ ]
read_digits-digits (suc f) n rest h = elim (Bool-cases (ltb n 10)) [
  | inl small ↦ rw small (ground arith)
  | inr big ↦
      rw (big, append_assoc (digits f (n / 10)) ((b'0' + n % 10) ∷ []) rest)
        (read_digits-digits f (n / 10) ((b'0' + n % 10) ∷ rest) (ground arith) ∙ ground arith)
]

read_digits-Stops : (n : ℕ) (rest : Bytes) → Stops rest → read_digits n rest ≡ n
unfolding read_digits
read_digits-Stops n [] h = refl
read_digits-Stops n (c ∷ s) h = rw h

magnitude-decimal : (n : ℕ) (rest : Bytes) → Stops rest → magnitude (decimal n ++ rest) ≡ some n
unfolding magnitude decimal
magnitude-decimal n rest h =
    let (c, s, e, d) = digits-cons (suc n) n (omega arith) in
    let value : read_digits 0 ((c ∷ s) ++ rest) ≡ n =
      rw e at (read_digits-digits (suc n) n rest (omega arith)) ∙ read_digits-Stops n rest h in
    rw e (ground arith)

skip_spaces-decimal : (n : ℕ) (rest : Bytes) → skip_spaces (decimal n ++ rest) ≡ decimal n ++ rest
unfolding skip_spaces
skip_spaces-decimal n rest = let (c, s, e, d) = decimal-cons n in rw e (ground arith)

signed-decimal :
    (n : ℕ) (rest : Bytes)
    → signed (decimal n ++ rest) ≡ to_int false (magnitude (decimal n ++ rest))
unfolding signed
signed-decimal n rest = let (c, s, e, d) = decimal-cons n in rw e (ground arith)

-- Every `int` is read back from its print, whatever follows that is not a digit.
pub stoi-to_string :
    (z : ℤ) (rest : Bytes) → IsInt z → Stops rest → stoi (to_string z ++ rest) ≡ ok z
unfolding stoi to_string to_int
stoi-to_string (pos n) rest h stop =
    rw (skip_spaces-decimal n rest, signed-decimal n rest, magnitude-decimal n rest stop)
      (ground arith)
stoi-to_string (negsuc n) rest h stop =
    unfold skip_spaces signed in rw (magnitude-decimal (suc n) rest stop) (ground arith)

-- The same for a whole text.
pub stoi_whole : (z : ℤ) → IsInt z → stoi (to_string z) ≡ ok z
stoi_whole z h = rw append-nil at (stoi-to_string z [] h tt)
