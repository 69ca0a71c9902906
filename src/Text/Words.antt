-- ===== src/Text/Words.antt =====
-- The words of a line: what `while (ss >> buf) tokens.push_back(buf)` collects.
use tcpserver_cpp_libuv_samp.Base.{
  ◌≡◌, ◌≢◌, refl, sym, ap, ◌∙◌, Bool, true, false, not, ◌&&◌, List, [], ◌∷◌, ◌++◌, append_assoc,
  append-nil, arith, Bytes, All, All-append, Bool-cases, inl, inr,
}
use tcpserver_cpp_libuv_samp.Text.{is_space, flush, words_from, words}

abbrev pub NoSpace : Bytes → Type 0
NoSpace = All (λ c. is_space c ≡ false)

abbrev pub IsWord : Bytes → Type 0
IsWord w = (w ≢ []) × NoSpace w

-- The test of a word, for literals.
abbrev pub no_space : Bytes → Bool
no_space [] = true
no_space (c ∷ s) = not (is_space c) && no_space s

abbrev pub is_word : Bytes → Bool
is_word [] = false
is_word (c ∷ s) = no_space (c ∷ s)

no_space-NoSpace : (s : Bytes) → no_space s ≡ true → NoSpace s
no_space-NoSpace [] h = tt
no_space-NoSpace (c ∷ s) h = (ground arith, no_space-NoSpace s (ground arith))

pub is_word-IsWord : (w : Bytes) → is_word w ≡ true → IsWord w
is_word-IsWord [] h = cc
is_word-IsWord (c ∷ s) h = (λ e. cc, no_space-NoSpace (c ∷ s) h)

-- The words with one blank between them.
unfoldable pub spaced : List Bytes → Bytes
spaced [] = []
spaced (w ∷ []) = w
spaced (w ∷ v ∷ ws) = w ++ 32 ∷ spaced (v ∷ ws)

words_from-append :
    (w rest cur : Bytes) → NoSpace w → words_from (w ++ rest) cur ≡ words_from rest (cur ++ w)
unfolding words_from
words_from-append [] rest cur h = rw append-nil
words_from-append (c ∷ w) rest cur (hc, hw) =
    rw (hc, words_from)
      (words_from-append w rest (cur ++ c ∷ []) hw
        ∙ ap (words_from rest) (append_assoc cur (c ∷ []) w))

flush-IsWord : (w : Bytes) (ws : List Bytes) → w ≢ [] → flush w ws ≡ w ∷ ws
unfolding flush
flush-IsWord [] ws h = absurd (h refl)
flush-IsWord (c ∷ w) ws h = refl

words-one : (w : Bytes) → IsWord w → words w ≡ w ∷ []
unfolding words
words-one w (ne, h) =
    ap (λ s. words_from s []) (sym (append-nil w))
    ∙ words_from-append w [] [] h
    ∙ unfold words_from in flush-IsWord w [] ne

pub words-cons : (w s : Bytes) → IsWord w → words (w ++ 32 ∷ s) ≡ w ∷ words s
unfolding words
words-cons w s (ne, h) =
    words_from-append w (32 ∷ s) [] h ∙ unfold words_from in flush-IsWord w (words_from s []) ne

-- Words that are written with one blank between them are read back.
pub words-spaced : (ws : List Bytes) → All IsWord ws → words (spaced ws) ≡ ws
unfolding spaced
words-spaced [] h = unfold words words_from flush in refl
words-spaced (w ∷ []) (hw, _) = words-one w hw
words-spaced (w ∷ v ∷ ws) (hw, hs) =
    rw (words-cons w (spaced (v ∷ ws)) hw, words-spaced (v ∷ ws) hs)

flush-All :
    (cur : Bytes) (ws : List Bytes) → NoSpace cur → All IsWord ws → All IsWord (flush cur ws)
unfolding flush
flush-All [] ws h hs = hs
flush-All (c ∷ w) ws h hs = ((λ e. cc, h), hs)

words_from-All : (s cur : Bytes) → NoSpace cur → All IsWord (words_from s cur)
unfolding words_from
words_from-All [] cur h = flush-All cur [] h tt
words_from-All (c ∷ s) cur h = elim (Bool-cases (is_space c)) [
  | inl e ↦ rw (e, words_from) (flush-All cur (words_from s []) h (words_from-All s [] tt))
  | inr e ↦
      rw (e, words_from)
        (words_from-All s (cur ++ c ∷ []) (All-append (λ b. is_space b ≡ false) cur _ h (e, tt)))
]

-- Whatever is read, each word is one: not empty and without a blank.
pub words-All : (s : Bytes) → All IsWord (words s)
unfolding words
words-All s = words_from-All s [] tt
