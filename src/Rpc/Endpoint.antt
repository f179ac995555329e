-- ===== src/Rpc/Endpoint.antt =====
-- src/solana/rpc_client.cpp: the parts of an endpoint that is put together from them.
use solana_cpp_sdk.Base.{ℕ, suc, ◌^◌, ◌<◌, List, [], ◌∷◌, ◌++◌, Bool, true, false, ◌≡◌, ◌≢◌}
use solana_cpp_sdk.Base.{
  refl, ap, sym, ◌∙◌, arith, All, All-append, length, codes, Option, none, some, ok, drop,
}
use solana_cpp_sdk.Base.{if◌then◌else◌, append-nil, take-append, drop-append}
use mathlib.Core.Path.{subst}
use solana_cpp_sdk.Json.{is_digit}
use solana_cpp_sdk.Base.{pos}
use solana_cpp_sdk.Rpc.{ProxyConfig, parse_endpoint}
use solana_cpp_sdk.Rpc.{parse_scheme, split_path, parse_host_port}
use solana_cpp_sdk.Rpc.Decimal.{to_string-is_digit}
use solana_cpp_sdk.Rpc.Http.{to_string}
use solana_cpp_sdk.Rpc.Ports.{
  Lacks, find-none, find-append, rfind-none, rfind-append, stoi-to_string,
}

-- An endpoint from its parts; a port and a path may be missing.
abbrev scheme : Bool → List ℕ
scheme true = codes "https://"
scheme false = codes "http://"

abbrev port_text : Option ℕ → List ℕ
port_text none = []
port_text (some n) = 58 ∷ to_string n

abbrev port_or : ℕ → Option ℕ → ℕ
port_or default_port none = default_port
port_or default_port (some n) = n

abbrev IsPort : Option ℕ → Type 0
IsPort none = Unit {0}
IsPort (some n) = n < 2 ^ 31

abbrev IsPath : List ℕ → Type 0
IsPath [] = Unit {0}
IsPath (c ∷ s) = c ≡ 47

abbrev path_or_slash : List ℕ → List ℕ
path_or_slash [] = 47 ∷ []
path_or_slash (c ∷ s) = c ∷ s

abbrev endpoint_text : Bool → List ℕ → Option ℕ → List ℕ → List ℕ
endpoint_text tls host port path = scheme tls ++ ((host ++ port_text port) ++ path)

parse_scheme-scheme :
    (tls : Bool) (url : List ℕ)
    → parse_scheme (scheme tls ++ url) ≡ (tls, if tls then 443 else 80, url)
unfolding parse_scheme
parse_scheme-scheme true url = refl
parse_scheme-scheme false url = refl

split_path-slash : (url s : List ℕ) → Lacks 47 url → split_path (url ++ (47 ∷ s)) ≡ (url, 47 ∷ s)
unfolding split_path
split_path-slash url s h =
    rw
      (
        split_path,
        find-append 47 url s h,
        take-append url (47 ∷ s) (length url) refl,
        drop-append url (47 ∷ s) (length url) refl,
      )
      refl

split_path-append :
    (url path : List ℕ)
    → Lacks 47 url
    → IsPath path
    → split_path (url ++ path) ≡ (url, path_or_slash path)
unfolding split_path
split_path-append url [] h p = rw (append-nil url) (rw (split_path, find-none 47 url h) refl)
split_path-append url (c ∷ s) h p =
    subst (λ d. split_path (url ++ (d ∷ s)) ≡ (url, d ∷ s)) (sym p) (split_path-slash url s h)

colon_no_digit : is_digit 58 ≡ false
unfolding is_digit
colon_no_digit = refl

slash_no_digit : is_digit 47 ≡ false
unfolding is_digit
slash_no_digit = refl

drop_past : (c : ℕ) (s t : List ℕ) → drop (suc (length s)) (s ++ (c ∷ t)) ≡ t
drop_past c [] t = refl
drop_past c (d ∷ s) t = drop_past c s t

true_ne_false : true ≢ false
true_ne_false e = cc

digits-Lacks :
    (c : ℕ) (s : List ℕ) → All (λ d. is_digit d ≡ true) s → is_digit c ≡ false → Lacks c s
digits-Lacks c [] h n = tt
digits-Lacks c (d ∷ s) h n =
    ((λ e. true_ne_false (sym h.0 ∙ (ap is_digit e ∙ n))), digits-Lacks c s h.1 n)

to_string-Lacks : (c n : ℕ) → is_digit c ≡ false → Lacks c (to_string n)
to_string-Lacks c n h = digits-Lacks c (to_string n) (to_string-is_digit n) h

parse_host_port-append :
    (default_port : ℕ) (host : List ℕ) (port : Option ℕ)
    → Lacks 58 host
    → IsPort port
    → parse_host_port default_port (host ++ port_text port)
      ≡ ok (host, pos (port_or default_port port))
unfolding parse_host_port
parse_host_port-append default_port host none h p =
    rw (append-nil host) (rw (parse_host_port, rfind-none 58 host h) refl)
parse_host_port-append default_port host (some n) h p =
    rw
      (
        parse_host_port,
        rfind-append 58 host (to_string n) (to_string-Lacks 58 n colon_no_digit),
        drop_past 58 host (to_string n),
        stoi-to_string n p,
        take-append host (58 ∷ to_string n) (length host) refl,
      )
      refl

port_text-Lacks : (port : Option ℕ) → Lacks 47 (port_text port)
port_text-Lacks none = tt
port_text-Lacks (some n) = ((λ i. omega arith), to_string-Lacks 47 n slash_no_digit)

-- An endpoint of a scheme, a host without a colon or a slash, an optional port below 2 ^ 31 in
-- decimal digits and an optional path from a slash on is taken apart into these, with port 443 or
-- 80 by the scheme and the path / where they are missing.
pub parse_endpoint-endpoint_text :
    (tls : Bool) (host : List ℕ) (port : Option ℕ) (path : List ℕ) (proxy : ProxyConfig)
    → Lacks 58 host
    → Lacks 47 host
    → IsPort port
    → IsPath path
    → parse_endpoint (endpoint_text tls host port path) proxy
      ≡ ok (record {
        endpoint = endpoint_text tls host port path;
        host = host;
        path = path_or_slash path;
        port = pos (port_or (if tls then 443 else 80) port);
        tls = tls;
        proxy = proxy;
      })
unfolding parse_endpoint
parse_endpoint-endpoint_text tls host port path proxy h1 h2 n p =
    let url = host ++ port_text port in
    let free = All-append (λ d. d ≢ 47) host (port_text port) h2 (port_text-Lacks port) in
    rw
      (
        parse_scheme-scheme tls (url ++ path),
        split_path-append url path free p,
        parse_host_port-append (if tls then 443 else 80) host port h1 n,
      )
      refl
