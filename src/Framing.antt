-- ===== src/Framing.antt =====
-- The stream of lines that the receiving side of a connection is to see: an abstract view of the
-- bytes in `myReceiveBuffer` of lib/net_client.cpp, written without `find` and `substr`.
pub mod Receive
pub mod Stream
pub mod Reads
use tcpserver_cpp_libuv_samp.Base.{
  ℕ, ◌≡◌, ◌≢◌, refl, sym, ap, ◌∙◌, true, false, List, [], ◌∷◌, ◌++◌, append_assoc, append-nil,
  arith, Bytes, All, All-append, ◌==◌, Bool-cases, inl, inr,
}
use tcpserver_cpp_libuv_samp.Text.Split.{Lacks}

-- The first argument is the line that is being read.
unfoldable pub lines_from : Bytes → Bytes → List Bytes
lines_from cur [] = []
lines_from cur (c ∷ s) = elim (c == b'\n') [
  | true ↦ cur ∷ lines_from [] s
  | false ↦ lines_from (cur ++ c ∷ []) s
]

unfoldable pub rest_from : Bytes → Bytes → Bytes
rest_from cur [] = cur
rest_from cur (c ∷ s) = elim (c == b'\n') [
  | true ↦ rest_from [] s
  | false ↦ rest_from (cur ++ c ∷ []) s
]

-- The ended lines of a text, and its last line, which has no end yet.
abbrev pub lines : Bytes → List Bytes
lines = lines_from []

abbrev pub rest : Bytes → Bytes
rest = rest_from []

pub lines_from-Lacks :
    (p s cur : Bytes) → Lacks b'\n' p → lines_from cur (p ++ s) ≡ lines_from (cur ++ p) s
unfolding lines_from
lines_from-Lacks [] s cur h = rw append-nil
lines_from-Lacks (c ∷ p) s cur (hc, hp) =
    let other : (c == b'\n') ≡ false = ground arith in
    rw (other, lines_from)
      (lines_from-Lacks p s (cur ++ c ∷ []) hp
        ∙ ap (λ t. lines_from t s) (append_assoc cur (c ∷ []) p))

pub rest_from-Lacks :
    (p s cur : Bytes) → Lacks b'\n' p → rest_from cur (p ++ s) ≡ rest_from (cur ++ p) s
unfolding rest_from
rest_from-Lacks [] s cur h = rw append-nil
rest_from-Lacks (c ∷ p) s cur (hc, hp) =
    let other : (c == b'\n') ≡ false = ground arith in
    rw (other, rest_from)
      (rest_from-Lacks p s (cur ++ c ∷ []) hp
        ∙ ap (λ t. rest_from t s) (append_assoc cur (c ∷ []) p))

pub lines_first : (p s : Bytes) → Lacks b'\n' p → lines (p ++ b'\n' ∷ s) ≡ p ∷ lines s
unfolding lines_from
lines_first p s h = lines_from-Lacks p (b'\n' ∷ s) [] h

pub rest_first : (p s : Bytes) → Lacks b'\n' p → rest (p ++ b'\n' ∷ s) ≡ rest s
unfolding rest_from
rest_first p s h = rest_from-Lacks p (b'\n' ∷ s) [] h

-- A text with no end of line.
pub lines_none : (p : Bytes) → Lacks b'\n' p → (lines p ≡ []) × (rest p ≡ p)
lines_none p h = (
  ap lines (append-nil' p) ∙ lines_from-Lacks p [] [] h ∙ (unfold lines_from in refl),
  ap rest (append-nil' p) ∙ rest_from-Lacks p [] [] h ∙ (unfold rest_from in refl),
)
  where
    append-nil' : (q : Bytes) → q ≡ q ++ []
    append-nil' q = sym (append-nil q)

rest_from-All : (cur s : Bytes) → Lacks b'\n' cur → Lacks b'\n' (rest_from cur s)
unfolding rest_from
rest_from-All cur [] h = h
rest_from-All cur (c ∷ s) h = elim (Bool-cases (c == b'\n')) [
  | inl e ↦ rw (e, rest_from) (rest_from-All [] s tt)
  | inr e ↦
      rw (e, rest_from)
        (rest_from-All (cur ++ c ∷ []) s (All-append _ cur (c ∷ []) h (ground arith, tt)))
]

lines_from-append :
    (a b cur : Bytes)
    → (lines_from cur (a ++ b) ≡ lines_from cur a ++ lines_from (rest_from cur a) b)
      × (rest_from cur (a ++ b) ≡ rest_from (rest_from cur a) b)
unfolding lines_from rest_from
lines_from-append [] b cur = (refl, refl)
lines_from-append (c ∷ a) b cur = elim (Bool-cases (c == b'\n')) [
  | inl e ↦
      let ih = lines_from-append a b [] in
      (rw (e, lines_from, rest_from) (ap (◌∷◌ cur) ih.0), rw (e, rest_from) ih.1)
  | inr e ↦
      let ih = lines_from-append a b (cur ++ c ∷ []) in
      (rw (e, lines_from, rest_from) ih.0, rw (e, rest_from) ih.1)
]

-- However the bytes are cut into two reads, the lines of both are the lines of the whole: those of
-- the first read, then those of what it left with the second read behind it.
pub lines-append :
    (a b : Bytes)
    → (lines (a ++ b) ≡ lines a ++ lines (rest a ++ b)) × (rest (a ++ b) ≡ rest (rest a ++ b))
lines-append a b =
    let left = rest_from-All [] a tt in
    let cut = lines_from-append a b [] in
    (
      cut.0 ∙ ap (λ t. lines a ++ t) (sym (lines_from-Lacks (rest a) b [] left)),
      cut.1 ∙ sym (rest_from-Lacks (rest a) b [] left),
    )
