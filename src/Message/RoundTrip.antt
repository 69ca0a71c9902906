-- ===== src/Message/RoundTrip.antt =====
-- The line of a message (`SerializerMessageVisitor`) and the parser of lib/message.cpp.
use tcpserver_cpp_libuv_samp.Base.{
  ℕ, ◌≡◌, ◌≢◌, refl, List, [], ◌∷◌, some, arith, Bytes, codes, bytes_eq, All,
}
use tcpserver_cpp_libuv_samp.Base.Int.{ℤ, pos, negsuc, IsInt}
use tcpserver_cpp_libuv_samp.Base.Outcome.{ok}
use tcpserver_cpp_libuv_samp.Text.{to_string, words}
use tcpserver_cpp_libuv_samp.Text.Decimal.{IsDigit, decimal-IsDigit, decimal-cons, stoi_whole}
use tcpserver_cpp_libuv_samp.Text.Words.{IsWord, is_word-IsWord, NoSpace, spaced, words-spaced}
use tcpserver_cpp_libuv_samp.Message.{Message, serialize, parse_message, parse_other_peer}

-- What the text format can carry.
abbrev pub IsSendable : Message → Type 0
IsSendable (Message.handshake v y m) = IsWord v × IsWord y × IsWord m
IsSendable (Message.handshake_response v m y) = IsWord v × IsWord m × IsWord y
IsSendable (Message.ping t) = IsWord t
IsSendable (Message.ping_response t) = IsWord t
IsSendable (Message.other_peer h p) = IsWord h × IsInt p

-- The tokens of a message's line.
unfoldable pub tokens : Message → List Bytes
tokens (Message.handshake v y m) = codes "HANDSH" ∷ v ∷ y ∷ m ∷ []
tokens (Message.handshake_response v m y) = codes "HANDSHRESP" ∷ v ∷ m ∷ y ∷ []
tokens (Message.ping t) = codes "PING" ∷ t ∷ []
tokens (Message.ping_response t) = codes "PINGRESP" ∷ t ∷ []
tokens (Message.other_peer h p) = codes "OPEER" ∷ h ∷ to_string p ∷ []

pub serialize-spaced : (m : Message) → serialize m ≡ spaced (tokens m)
unfolding serialize spaced tokens
serialize-spaced (Message.handshake v y m) = refl
serialize-spaced (Message.handshake_response v m y) = refl
serialize-spaced (Message.ping t) = refl
serialize-spaced (Message.ping_response t) = refl
serialize-spaced (Message.other_peer h p) = refl

digits-NoSpace : (s : Bytes) → All IsDigit s → NoSpace s
digits-NoSpace [] h = tt
digits-NoSpace (c ∷ s) (hc, hs) = (ground arith, digits-NoSpace s hs)

literal_ne : (c : ℕ) (s : Bytes) → ◌≢◌ {A = Bytes} (c ∷ s) []
literal_ne c s e = cc

pub to_string-IsWord : (z : ℤ) → IsWord (to_string z)
unfolding to_string
to_string-IsWord (pos n) =
    let (c, s, e, _) = decimal-cons n in
    (rw e (literal_ne c s), digits-NoSpace _ (decimal-IsDigit n))
to_string-IsWord (negsuc n) = (literal_ne _ _, (refl, digits-NoSpace _ (decimal-IsDigit _)))

pub tokens-All : (m : Message) → IsSendable m → All IsWord (tokens m)
unfolding tokens
tokens-All (Message.handshake v y m) (hv, hy, hm) = (is_word-IsWord _ refl, (hv, (hy, (hm, tt))))
tokens-All (Message.handshake_response v m y) (hv, hm, hy) =
    (is_word-IsWord _ refl, (hv, (hm, (hy, tt))))
tokens-All (Message.ping t) h = (is_word-IsWord _ refl, (h, tt))
tokens-All (Message.ping_response t) h = (is_word-IsWord _ refl, (h, tt))
tokens-All (Message.other_peer h p) (hh, hp) =
    (is_word-IsWord _ refl, (hh, (to_string-IsWord p, tt)))

parse_message-tokens : (m : Message) → IsSendable m → parse_message (tokens m) ≡ ok (some m)
unfolding parse_message parse_other_peer tokens bytes_eq
parse_message-tokens (Message.handshake v y m) h = refl
parse_message-tokens (Message.handshake_response v m y) h = refl
parse_message-tokens (Message.ping t) h = refl
parse_message-tokens (Message.ping_response t) h = refl
parse_message-tokens (Message.other_peer h p) (_, hp) = rw (stoi_whole p hp) refl

-- A message of which each text field is a non-empty word without blanks, and whose port is an
-- `int`, is read back from its line as it was: with the order of its fields.
pub parse_message-serialize :
    (m : Message) → IsSendable m → parse_message (words (serialize m)) ≡ ok (some m)
parse_message-serialize m h =
    rw (serialize-spaced m, words-spaced (tokens m) (tokens-All m h)) (parse_message-tokens m h)
