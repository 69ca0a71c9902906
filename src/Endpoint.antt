-- ===== src/Endpoint.antt =====
-- node/endpoint.hpp and node/endpoint.cpp: `host:port`.
pub mod RoundTrip
use tcpserver_cpp_libuv_samp.Base.{suc, ◌∷◌, ◌++◌, [], Option, none, some, Bytes, codes, take, drop}
use tcpserver_cpp_libuv_samp.Base.Int.{ℤ, pos}
use tcpserver_cpp_libuv_samp.Base.Outcome.{Outcome, ok, fault}
use tcpserver_cpp_libuv_samp.Text.{to_string, stoi, find}

pub record Endpoint : Type 0 where
  pub host : Bytes
  pub port : ℤ

-- `catch (std::exception const &)` around `stoi`.
unfoldable pub port_or_zero : Outcome ℤ → ℤ
port_or_zero (ok p) = p
port_or_zero (fault f) = pos 0

-- `Endpoint(string)`: the first colon ends the host.
unfoldable pub parse_endpoint : Bytes → Endpoint
unfolding port_or_zero
parse_endpoint s = elim (find b':' s) [
  | none ↦ record { host = s; port = pos 0 }
  | some i ↦ record { host = take i s; port = port_or_zero (stoi (drop (suc i) s)) }
]

-- `getEndpoint`.
unfoldable pub get_endpoint : Endpoint → Bytes
get_endpoint e = e.host ++ (codes ":" ++ to_string e.port)
