-- ===== src/Examples/Client.antt =====
-- The RPC client and the mnemonics at small inputs.
use solana_cpp_sdk.Base.{
  ℕ, List, [], ◌∷◌, true, false, ◌≡◌, refl, arith, codes, replicate, some, ok,
}
use solana_cpp_sdk.Bip39.{HmacSodium, mnemonic_to_seed}
use solana_cpp_sdk.Bip39.Laws.{mnemonic_to_seed-ones_at, ones_at, first_hmac}
use solana_cpp_sdk.Bip39.Bits.{bit}
use solana_cpp_sdk.Base.{◌%◌, get_or, length}
use solana_cpp_sdk.Json.Print.{}
use solana_cpp_sdk.Base.{pos}
use solana_cpp_sdk.Rpc.{ProxyConfig, RpcClient, no_proxy, parse_endpoint}
use solana_cpp_sdk.Rpc.AccountList.{}
use solana_cpp_sdk.Rpc.Delivery.{http_post-delivers}
use solana_cpp_sdk.Rpc.Endpoint.{parse_endpoint-endpoint_text}
use solana_cpp_sdk.Rpc.Http.{
  Network, http_post, http_request, int_to_string, to_string, write_digits, skip_headers, crlf,
}
use solana_cpp_sdk.Rpc.Methods.{Poll}
use solana_cpp_sdk.Rpc.Requests.{}
use solana_cpp_sdk.Rpc.Polling.{Ends, confirm_transaction-Ends}

abbrev pub proxy : ProxyConfig
proxy = record { host = codes "localhost"; port = pos 8080; enabled = true }

abbrev pub client : RpcClient
client = record {
  endpoint = codes "https://n";
  host = codes "n";
  path = codes "/";
  port = pos 443;
  tls = true;
  proxy = proxy;
}

abbrev pub headers : List ℕ
headers = codes "HTTP/1.1 200 OK"

-- A node that answers every request with a body, in two pieces.
abbrev pub node : List ℕ → Network
node body = record {
  http = λ host port request. record {
    resolved = true;
    opened = true;
    connected = true;
    sent = 10 ∷ 5000 ∷ [];
    received = headers ∷ crlf (crlf body) ∷ [];
  };
  https = λ host port request. record {
    has_context = false;
    resolved = false;
    opened = false;
    connected = false;
    has_session = false;
    handshaken = false;
    written = false;
    received = [];
  };
}

http_post-delivers_example :
    http_post (node (codes "{}")) (codes "n") (pos 80) (codes "/") (codes "[]") ≡ ok (codes "{}")
unfolding http_request int_to_string to_string write_digits skip_headers
http_post-delivers_example =
    http_post-delivers (node (codes "{}")) (codes "n") (codes "/") (codes "[]") headers (codes "{}")
      (pos 80) (10 ∷ 5000 ∷ []) (headers ∷ crlf (crlf (codes "{}")) ∷ []) refl
      (omega arith, (omega arith, tt)) (omega arith) refl refl

parse_endpoint-endpoint_text_example :
    parse_endpoint (codes "http://ab:89/x") no_proxy
    ≡ ok (record {
      endpoint = codes "http://ab:89/x";
      host = codes "ab";
      path = codes "/x";
      port = pos 89;
      tls = false;
      proxy = no_proxy;
    })
unfolding to_string write_digits
parse_endpoint-endpoint_text_example =
    parse_endpoint-endpoint_text false (codes "ab") (some 89) (codes "/x") no_proxy
      ((λ e. omega arith), ((λ e. omega arith), tt)) ((λ e. omega arith), ((λ e. omega arith), tt))
      (omega arith) refl

abbrev two_polls : List Poll
two_polls =
    record { elapsed = 0; network = node (codes "{}") }
    ∷ record { elapsed = 2000; network = node (codes "{}") }
    ∷ []

confirm_transaction-Ends_example : Ends client (codes "sig") 1000 two_polls 1
confirm_transaction-Ends_example =
    confirm_transaction-Ends client (codes "sig") 1000 two_polls 1 _ refl (omega arith)

abbrev toy_hmac : HmacSodium
toy_hmac = record { ready = true; hmacsha512 = λ k t. replicate 64 5 }

mnemonic_to_seed-ones_at_example :
    (seed : List ℕ) × (mnemonic_to_seed toy_hmac (codes "zoo") (codes "p") ≡ ok seed)
    × (length seed ≡ 64)
    × ((i k : ℕ)
        → bit k (get_or seed i 0)
          ≡ ones_at toy_hmac (codes "zoo") (first_hmac toy_hmac (codes "zoo") (codes "p")) i k 2047
            % 2)
mnemonic_to_seed-ones_at_example =
    mnemonic_to_seed-ones_at toy_hmac (codes "zoo") (codes "p") refl (λ k t. refl)
