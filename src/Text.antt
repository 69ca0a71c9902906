-- ===== src/Text.antt =====
-- The functions of the C++ standard library that the program's text handling uses: `to_string`,
-- `stoi`, `string::find`, and the words that `while (ss >> buf)` reads from a string stream.
pub mod Decimal
pub mod Words
pub mod Split
use tcpserver_cpp_libuv_samp.Base.{
  ℕ, zero, suc, ◌+◌, ◌-◌, ◌*◌, ◌/◌, ◌%◌, ◌^◌, Bool, true, false, ◌&&◌, ◌||◌, List, [], ◌∷◌, ◌++◌,
  Option, none, some, Bytes, ltb, leb, ◌==◌, if◌then◌else◌,
}
use tcpserver_cpp_libuv_samp.Base.Int.{ℤ, pos, negsuc}
use tcpserver_cpp_libuv_samp.Base.Outcome.{Outcome, ok, fault, Fault}

-- `isspace` in the C locale.
abbrev pub is_space : ℕ → Bool
is_space c = c == 32 || (leb 9 c && leb c 13)

abbrev pub is_digit : ℕ → Bool
is_digit c = leb b'0' c && leb c b'9'

-- The decimal digits of a number; `digits f n` has the fuel for every `n < f`.
unfoldable pub digits : ℕ → ℕ → Bytes
digits zero n = []
digits (suc f) n =
    let front = digits f (n / 10) in
    if ltb n 10 then (b'0' + n) ∷ [] else front ++ (b'0' + n % 10) ∷ []

unfoldable pub decimal : ℕ → Bytes
decimal n = digits (suc n) n

unfoldable pub to_string : ℤ → Bytes
to_string (pos n) = decimal n
to_string (negsuc n) = b'-' ∷ decimal (suc n)

-- `stoi`: blanks, a sign, digits; what follows the digits is ignored.
unfoldable pub skip_spaces : Bytes → Bytes
skip_spaces [] = []
skip_spaces (c ∷ s) = let rest = skip_spaces s in if is_space c then rest else c ∷ s

unfoldable pub read_digits : ℕ → Bytes → ℕ
read_digits n [] = n
read_digits n (c ∷ s) =
    let more = read_digits (n * 10 + (c - b'0')) s in if is_digit c then more else n

unfoldable pub magnitude : Bytes → Option ℕ
magnitude [] = none
magnitude (c ∷ s) = if is_digit c then some (read_digits 0 (c ∷ s)) else none

-- The range check of a 32-bit `int`.
unfoldable pub to_int : Bool → Option ℕ → Outcome ℤ
to_int negative none = fault Fault.invalid_argument
to_int false (some n) = if ltb n (2 ^ 31) then ok (pos n) else fault Fault.out_of_range
to_int true (some zero) = ok (pos 0)
to_int true (some (suc n)) = if ltb n (2 ^ 31) then ok (negsuc n) else fault Fault.out_of_range

unfoldable pub signed : Bytes → Outcome ℤ
signed [] = fault Fault.invalid_argument
signed (c ∷ s) =
    if c == b'-'
    then to_int true (magnitude s)
    else if c == b'+'
    then to_int false (magnitude s)
    else to_int false (magnitude (c ∷ s))

unfoldable pub stoi : Bytes → Outcome ℤ
stoi s = signed (skip_spaces s)

-- `string::find` of one char; `none` is `npos`.
unfoldable pub find : ℕ → Bytes → Option ℕ
find b [] = none
find b (c ∷ s) =
    let later = find b s in
    if c == b then some 0 else elim later [ none ↦ none | some i ↦ some (suc i) ]

-- A word ends at a blank or at the end of the stream; an empty one is none.
unfoldable pub flush : Bytes → List Bytes → List Bytes
flush [] ws = ws
flush (c ∷ w) ws = (c ∷ w) ∷ ws

-- The second argument is the word that is being read.
unfoldable pub words_from : Bytes → Bytes → List Bytes
words_from [] cur = flush cur []
words_from (c ∷ s) cur = elim (is_space c) [
  | true ↦ flush cur (words_from s [])
  | false ↦ words_from s (cur ++ c ∷ [])
]

unfoldable pub words : Bytes → List Bytes
words s = words_from s []
