-- ===== src/Rpc.antt =====
-- src/solana/rpc_client.cpp: the client's state, and how it is made from an endpoint.
pub mod Http
pub mod Requests
pub mod Methods
pub mod Responses
pub mod AccountNodes
pub mod AccountList
pub mod Decimal
pub mod Ports
pub mod Endpoint
pub mod Polling
pub mod Delivery
pub mod Replies
pub mod Exceptions
use solana_cpp_sdk.Base.{
  ℕ, zero, suc, ◌+◌, ◌-◌, ◌^◌, List, [], ◌∷◌, ◌++◌, Bool, true, false, not, ◌||◌, ◌&&◌,
}
use solana_cpp_sdk.Base.{
  Option, none, some, length, take, drop, ltb, leb, ◌==◌, if◌then◌else◌, bytes_eq, codes,
}
use solana_cpp_sdk.Base.{Result, ok, err, ◌>>◌, ◌>>=◌, throw_if, invalid_argument, out_of_range}
use solana_cpp_sdk.Base.{ℤ, pos, negsuc, negate}
use solana_cpp_sdk.Json.{is_digit}
use solana_cpp_sdk.Json.Access.{digits_value}

pub record ProxyConfig : Type 0 where
  pub host : List ℕ
  pub port : ℤ
  pub enabled : Bool

-- `ProxyConfig()`
unfoldable pub no_proxy : ProxyConfig
no_proxy = record { host = []; port = pos 8080; enabled = false }

pub record RpcClient : Type 0 where
  pub endpoint : List ℕ
  pub host : List ℕ
  pub path : List ℕ
  pub port : ℤ
  pub tls : Bool
  pub proxy : ProxyConfig

abbrev pub next_index : Option ℕ → Option ℕ
next_index none = none
next_index (some i) = some (suc i)

-- `std::string::find(char)` and `rfind(char)`; `none` is `npos`.
unfoldable pub find : ℕ → List ℕ → Option ℕ
find c [] = none
find c (d ∷ s) = let later = next_index (find c s) in if d == c then some 0 else later

abbrev pub or_here : Bool → Option ℕ → Option ℕ
or_here here (some i) = some (suc i)
or_here true none = some 0
or_here false none = none

unfoldable pub rfind : ℕ → List ℕ → Option ℕ
rfind c [] = none
rfind c (d ∷ s) = or_here (d == c) (rfind c s)

-- `std::stoi`: spaces, a sign, and digits up to the first other byte.
unfoldable pub is_c_space : ℕ → Bool
is_c_space c = c == 32 || (leb 9 c && leb c 13)

unfoldable pub skip_c_space : List ℕ → List ℕ
skip_c_space [] = []
skip_c_space (c ∷ s) = let rest = skip_c_space s in if is_c_space c then rest else c ∷ s

unfoldable pub starts_digit : List ℕ → Bool
starts_digit [] = false
starts_digit (c ∷ s) = is_digit c

unfoldable pub parse_digits : Bool → List ℕ → Result ℤ
parse_digits negative s = do
  throw_if (not (starts_digit s)) invalid_argument
  let n = digits_value s 0 in
      throw_if (not (if negative then leb n (2 ^ 31) else ltb n (2 ^ 31))) out_of_range
      >> ok (if negative then negate n else pos n)

unfoldable pub parse_signed : List ℕ → Result ℤ
parse_signed [] = err invalid_argument
parse_signed (c ∷ s) =
    if c == 45
    then parse_digits true s
    else if c == 43
    then parse_digits false s
    else parse_digits false (c ∷ s)

unfoldable pub stoi : List ℕ → Result ℤ
stoi s = parse_signed (skip_c_space s)

-- The scheme: whether it is `https://`, the default port, and the rest of the endpoint.
unfoldable pub parse_scheme : List ℕ → Bool × ℕ × List ℕ
parse_scheme url =
    if bytes_eq (take 8 url) (codes "https://")
    then (true, 443, drop 8 url)
    else if bytes_eq (take 7 url) (codes "http://")
    then (false, 80, drop 7 url)
    else (false, 80, url)

-- The host and the port, with the default port at hand.
unfoldable pub parse_host_port : ℕ → List ℕ → Result (List ℕ × ℤ)
parse_host_port default_port host_port = elim (rfind 58 host_port) [
  | none ↦ ok (host_port, pos default_port)
  | some colon ↦ stoi (drop (suc colon) host_port) >>= λ port. ok (take colon host_port, port)
]

unfoldable pub split_path : List ℕ → List ℕ × List ℕ
split_path url = elim (find 47 url) [
  | none ↦ (url, 47 ∷ [])
  | some slash ↦ (take slash url, drop slash url)
]

-- The constructors and `parseEndpoint`.
unfoldable pub parse_endpoint : List ℕ → ProxyConfig → Result RpcClient
parse_endpoint endpoint proxy =
    let (tls, default_port, url) = parse_scheme endpoint in
    let (host_port, path) = split_path url in
    parse_host_port default_port host_port >>= λ at. ok (record {
      endpoint = endpoint;
      host = at.0;
      path = path;
      port = at.1;
      tls = tls;
      proxy = proxy;
    })

unfoldable pub set_proxy : RpcClient → ProxyConfig → RpcClient
set_proxy client proxy = record {
  endpoint = client.endpoint;
  host = client.host;
  path = client.path;
  port = client.port;
  tls = client.tls;
  proxy = proxy;
}
