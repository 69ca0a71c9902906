-- ===== src/Message.antt =====
-- lib/message.hpp and lib/message.cpp: the messages, their text on the wire, and the parser of the
-- tokens of a line. The visitor's double dispatch is a function by clauses.
pub mod RoundTrip
pub mod Parsed
use tcpserver_cpp_libuv_samp.Base.{
  ℕ, ◌&&◌, List, [], ◌∷◌, ◌++◌, Option, none, some, Bytes, codes, bytes_eq, length, get_or, leb,
  if◌then◌else◌,
}
use tcpserver_cpp_libuv_samp.Base.Int.{ℤ}
use tcpserver_cpp_libuv_samp.Base.Outcome.{Outcome, ok, ◌>>=◌}
use tcpserver_cpp_libuv_samp.Text.{to_string, stoi}

pub data MessageType : Type 0 where
  invalid handshake handshake_response ping ping_response other_peer : MessageType

-- The fields stand in the order of the constructors' parameters.
pub data Message : Type 0 where
  handshake : (version your_addr my_addr : Bytes) → Message
  handshake_response : (version my_addr your_addr : Bytes) → Message
  ping : (content : Bytes) → Message
  ping_response : (content : Bytes) → Message
  other_peer : (host : Bytes) (port : ℤ) → Message

unfoldable pub get_type : Message → MessageType
get_type (Message.handshake v y m) = MessageType.handshake
get_type (Message.handshake_response v m y) = MessageType.handshake_response
get_type (Message.ping t) = MessageType.ping
get_type (Message.ping_response t) = MessageType.ping_response
get_type (Message.other_peer h p) = MessageType.other_peer

-- `toString`, the print for the log.
unfoldable pub describe : Message → Bytes
describe (Message.handshake v y m) =
    codes "HandSh " ++ (v ++ (codes " " ++ (y ++ (codes " " ++ m))))
describe (Message.handshake_response v m y) =
    codes "HandShResp " ++ (v ++ (codes " " ++ (m ++ (codes " " ++ y))))
describe (Message.ping t) = codes "Ping " ++ t
describe (Message.ping_response t) = codes "PingResp " ++ t
describe (Message.other_peer h p) = codes "OtherPeer " ++ (h ++ (codes ":" ++ to_string p))

-- `SerializerMessageVisitor`, without the terminator.
unfoldable pub serialize : Message → Bytes
serialize (Message.handshake v y m) =
    codes "HANDSH " ++ (v ++ (codes " " ++ (y ++ (codes " " ++ m))))
serialize (Message.handshake_response v m y) =
    codes "HANDSHRESP " ++ (v ++ (codes " " ++ (m ++ (codes " " ++ y))))
serialize (Message.ping t) = codes "PING " ++ t
serialize (Message.ping_response t) = codes "PINGRESP " ++ t
serialize (Message.other_peer h p) = codes "OPEER " ++ (h ++ (codes " " ++ to_string p))

unfoldable pub parse_other_peer : Bytes → Bytes → Outcome (Option Message)
parse_other_peer host port_text = do port ← stoi port_text; ok (some (Message.other_peer host port))

-- `none` is `nullptr`; `stoi` may throw.
unfoldable pub parse_message : List Bytes → Outcome (Option Message)
parse_message [] = ok none
parse_message (tag ∷ fields) =
    let size = length (tag ∷ fields) in
    let token = λ (i : ℕ). get_or (tag ∷ fields) i [] in
    if bytes_eq tag (codes "HANDSH") && leb 4 size
    then ok (some (Message.handshake (token 1) (token 2) (token 3)))
    else if bytes_eq tag (codes "HANDSHRESP") && leb 4 size
    then ok (some (Message.handshake_response (token 1) (token 2) (token 3)))
    else if bytes_eq tag (codes "PING") && leb 2 size
    then ok (some (Message.ping (token 1)))
    else if bytes_eq tag (codes "PINGRESP") && leb 2 size
    then ok (some (Message.ping_response (token 1)))
    else if bytes_eq tag (codes "OPEER") && leb 3 size
    then parse_other_peer (token 1) (token 2)
    else ok none
