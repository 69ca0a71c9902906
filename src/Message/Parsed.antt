-- ===== src/Message/Parsed.antt =====
-- The messages that `parseMessage` of lib/message.cpp can build.
use tcpserver_cpp_libuv_samp.Base.{
  ℕ, ◌≡◌, refl, Bool, true, false, List, [], ◌∷◌, Option, none, some, arith, Bytes, All,
}
use mathlib.Core.Path.{subst}
use tcpserver_cpp_libuv_samp.Base.Int.{ℤ, IsInt}
use tcpserver_cpp_libuv_samp.Base.Outcome.{Outcome, ok, fault, ◌>>=◌}
use tcpserver_cpp_libuv_samp.Text.{to_int, signed, magnitude, stoi, skip_spaces}
use tcpserver_cpp_libuv_samp.Text.Words.{IsWord}
use tcpserver_cpp_libuv_samp.Message.{Message, parse_message, parse_other_peer}
use tcpserver_cpp_libuv_samp.Message.RoundTrip.{IsSendable}

to_int-IsInt : (b : Bool) (o : Option ℕ) (z : ℤ) → to_int b o ≡ ok z → IsInt z
unfolding to_int
to_int-IsInt b none z h = cc
to_int-IsInt false (some n) z h = ground arith
to_int-IsInt true (some n) z h = ground arith

signed-IsInt : (s : Bytes) (z : ℤ) → signed s ≡ ok z → IsInt z
unfolding signed
signed-IsInt [] z h = cc
signed-IsInt (c ∷ s) z h = ground (
  arith,
  to_int-IsInt true (magnitude s) z,
  to_int-IsInt false (magnitude s) z,
  to_int-IsInt false (magnitude (c ∷ s)) z,
)

-- A number that `stoi` returns is an `int`.
pub stoi-IsInt : (s : Bytes) (z : ℤ) → stoi s ≡ ok z → IsInt z
unfolding stoi
stoi-IsInt s = signed-IsInt (skip_spaces s)

parse_other_peer-IsSendable :
    (host text : Bytes) (m : Message)
    → IsWord host
    → parse_other_peer host text ≡ ok (some m)
    → IsSendable m
unfolding parse_other_peer
parse_other_peer-IsSendable host text m word h = go (stoi text) refl h
  where
    go :
        (r : Outcome ℤ)
        → stoi text ≡ r
        → (r >>= λ port. ok (some (Message.other_peer host port))) ≡ ok (some m)
        → IsSendable m
    go (ok port) e h' =
        let same : Message.other_peer host port ≡ m = cc in
        subst IsSendable same (word, stoi-IsInt text port e)
    go (fault f) e h' = cc

-- Every message that the parser builds from words has words for its text fields and an `int` for
-- its port.
pub parse_message-IsSendable :
    (ts : List Bytes) (m : Message) → All IsWord ts → parse_message ts ≡ ok (some m) → IsSendable m
unfolding parse_message
parse_message-IsSendable [] m hs h = cc
parse_message-IsSendable (t ∷ []) m hs h = ground arith
parse_message-IsSendable (t ∷ a ∷ []) m hs h = ground arith
parse_message-IsSendable (t ∷ a ∷ b ∷ []) m hs h = ground (arith, parse_other_peer-IsSendable a b m)
parse_message-IsSendable (t ∷ a ∷ b ∷ c ∷ rest) m hs h =
    ground (arith, parse_other_peer-IsSendable a b m)
