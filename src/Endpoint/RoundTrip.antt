-- ===== src/Endpoint/RoundTrip.antt =====
-- The parser of node/endpoint.cpp and the print of node/endpoint.hpp.
use tcpserver_cpp_libuv_samp.Base.{
  suc, ◌≡◌, refl, ◌↔◌, ◌∷◌, arith, Bytes, drop, Option-cases, inl, inr,
}
use mathlib.Core.Path.{subst}
use tcpserver_cpp_libuv_samp.Base.Int.{ℤ, IsInt}
use tcpserver_cpp_libuv_samp.Base.Outcome.{Outcome, ok, fault}
use tcpserver_cpp_libuv_samp.Text.{to_string, stoi, find}
use tcpserver_cpp_libuv_samp.Text.Decimal.{stoi_whole}
use tcpserver_cpp_libuv_samp.Text.Split.{
  Lacks, find_first, find-some, find-none, take-length, drop-length,
}
use tcpserver_cpp_libuv_samp.Message.Parsed.{stoi-IsInt}
use tcpserver_cpp_libuv_samp.Endpoint.{Endpoint, port_or_zero, parse_endpoint, get_endpoint}

parse-get : (e : Endpoint) → Lacks b':' e.host → IsInt e.port → parse_endpoint (get_endpoint e) ≡ e
unfolding parse_endpoint get_endpoint port_or_zero
parse-get e h p =
    rw (find_first b':' e.host (to_string e.port) h, parse_endpoint)
      (rw (
        take-length e.host (b':' ∷ to_string e.port),
        drop-length b':' e.host (to_string e.port),
        stoi_whole e.port p,
      ))

parse_endpoint-Lacks : (s : Bytes) → Lacks b':' (parse_endpoint s).host
unfolding parse_endpoint
parse_endpoint-Lacks s = elim (Option-cases (find b':' s)) [
  | inl e ↦ rw (e, parse_endpoint) (find-none b':' s e)
  | inr (i, e) ↦ rw (e, parse_endpoint) (find-some b':' i s e).1
]

-- An endpoint with a port in the range of `int` is read back from its print exactly when its host
-- has no colon.
pub parse_endpoint-get_endpoint :
    (e : Endpoint) → IsInt e.port → (parse_endpoint (get_endpoint e) ≡ e) ↔ Lacks b':' e.host
parse_endpoint-get_endpoint e p = (
  λ same. subst (λ (d : Endpoint). Lacks b':' d.host) same (parse_endpoint-Lacks (get_endpoint e)),
  λ h. parse-get e h p,
)

port_or_zero-IsInt : (s : Bytes) → IsInt (port_or_zero (stoi s))
unfolding port_or_zero
port_or_zero-IsInt s = go (stoi s) refl
  where
    go : (r : Outcome ℤ) → stoi s ≡ r → IsInt (port_or_zero r)
    go (ok p) e = stoi-IsInt s p e
    go (fault f) e = omega arith

parse_endpoint-IsInt : (s : Bytes) → IsInt (parse_endpoint s).port
unfolding parse_endpoint
parse_endpoint-IsInt s = elim (Option-cases (find b':' s)) [
  | inl e ↦ rw (e, parse_endpoint) (omega arith)
  | inr (i, e) ↦ rw (e, parse_endpoint) (port_or_zero-IsInt (drop (suc i) s))
]

-- Whatever the text, the print of the endpoint that is parsed from it is stable: parsing that print
-- gives the same endpoint.
pub parse_endpoint_stable :
    (s : Bytes) → parse_endpoint (get_endpoint (parse_endpoint s)) ≡ parse_endpoint s
parse_endpoint_stable s =
    parse-get (parse_endpoint s) (parse_endpoint-Lacks s) (parse_endpoint-IsInt s)
