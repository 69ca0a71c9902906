-- ===== src/Remote.antt =====
-- `NetHandler::getRemoteAddressHostPort` and `getRemoteAddress` of lib/net_handler.cpp.
use tcpserver_cpp_libuv_samp.Base.{
  ℕ, ◌+◌, ◌*◌, ◌/◌, ◌%◌, ◌^◌, ◌<◌, ◌≡◌, ◌↔◌, ◌++◌, none, some, Bytes, codes, if◌then◌else◌, arith,
}
use tcpserver_cpp_libuv_samp.Base.Int.{ℤ, pos, is_zero}
use tcpserver_cpp_libuv_samp.Text.{to_string}
use tcpserver_cpp_libuv_samp.World.{
  Family, inet, inet6, other, SockAddr, uv_tcp_getpeername, Uv, M, pure, ◌>>=◌, call, read_peername,
}

pub record HostPort : Type 0 where
  pub host : Bytes
  pub port : ℤ

abbrev pub unknown_address : HostPort
unknown_address = record { host = codes "?"; port = pos 0 }

-- The printed address with the port field as it is; a failure of `uv_inet_ntop` leaves the default.
unfoldable pub printed_address : SockAddr → HostPort
printed_address a = elim a.ip [
  | none ↦ unknown_address
  | some ip ↦ record { host = ip; port = pos a.port_field }
]

unfoldable pub address_of : Family → SockAddr → HostPort
unfolding printed_address
address_of inet a = printed_address a
address_of inet6 a = printed_address a
address_of other a = unknown_address

module _ (uv : Uv) where
  unfoldable pub remote_address_host_port : ℕ → M HostPort
  remote_address_host_port handle = do
    res ← call uv (uv_tcp_getpeername handle)
    a ← read_peername uv handle
    pure (if is_zero res then address_of a.family a else unknown_address)

  unfoldable pub remote_address : ℕ → M Bytes
  remote_address handle = do
    a ← remote_address_host_port handle
    pure (a.host ++ (codes ":" ++ to_string a.port))

-- The 16-bit field of a port in network byte order, as a little-endian host reads it.
unfoldable pub network_order : ℕ → ℕ
network_order p = (p % 256) * 256 + p / 256

-- The code reports `sin_port` without the conversion to host order: for a peer at port `p`, on a
-- little-endian host, the reported port is `p` exactly when the two bytes of `p` are equal.
pub port_of_network_order :
    (a : SockAddr) (ip : Bytes) (p : ℕ)
    → p < 2 ^ 16
    → a.ip ≡ some ip
    → a.port_field ≡ network_order p
    → ((address_of inet a).port ≡ pos p) ↔ (p / 256 ≡ p % 256)
unfolding address_of network_order
port_of_network_order a ip p h e f = (λ same. ground arith, λ same. ground arith)
