-- ===== src/Rpc/Http.antt =====
-- src/solana/rpc_client.cpp: `httpPost`, `httpsPost` and `rpcPost`. The sockets and OpenSSL come as
-- a parameter that says, for each request, what their calls answer.
use solana_cpp_sdk.Base.{ℕ, zero, suc, ◌+◌, ◌-◌, ◌/◌, ◌%◌, List, [], ◌∷◌, ◌++◌, Bool, not}
use solana_cpp_sdk.Base.{
  Option, none, some, length, take, drop, ltb, ◌==◌, if◌then◌else◌, bytes_eq, codes,
}
use solana_cpp_sdk.Base.{Result, ok, err, ◌>>◌, throw_if, dns_failed, socket_failed, connect_failed}
use solana_cpp_sdk.Base.{send_failed, malformed_response, tls_failed, undefined_behaviour}
use solana_cpp_sdk.Base.{ℤ, pos, negsuc}
use solana_cpp_sdk.Rpc.{RpcClient}

-- `std::to_string`: the decimal digits, put before `rest`; 20 digits hold a `uint64_t`.
unfoldable pub write_digits : ℕ → ℕ → List ℕ → List ℕ
write_digits zero n rest = rest
write_digits (suc fuel) n rest =
    let digits = (48 + n % 10) ∷ rest in
    let more = write_digits fuel (n / 10) digits in if ltb n 10 then digits else more

unfoldable pub to_string : ℕ → List ℕ
to_string n = write_digits 20 n []

unfoldable pub int_to_string : ℤ → List ℕ
int_to_string (pos n) = to_string n
int_to_string (negsuc n) = 45 ∷ to_string (suc n)

abbrev pub crlf : List ℕ → List ℕ
crlf rest = 13 ∷ 10 ∷ rest

-- The request line, the headers, an empty line and the body.
unfoldable pub http_request : List ℕ → List ℕ → List ℕ → List ℕ
http_request host path body =
    codes "POST "
    ++ (path
        ++ (codes " HTTP/1.1"
            ++ crlf (
                codes "Host: "
                ++ (host
                    ++ crlf (
                        codes "Content-Type: application/json"
                        ++ crlf (
                            codes "Content-Length: "
                            ++ (to_string (length body)
                                ++ crlf (codes "Connection: close" ++ crlf (crlf body)))))))))

-- What the calls of one `httpPost` answer: `sent` has the results of `send`, 0 for a failure, and
-- `received` the bytes of each `recv` up to the first that gives none.
pub record HttpRun : Type 0 where
  pub resolved : Bool
  pub opened : Bool
  pub connected : Bool
  pub sent : List ℕ
  pub received : List (List ℕ)

pub record HttpsRun : Type 0 where
  pub has_context : Bool
  pub resolved : Bool
  pub opened : Bool
  pub connected : Bool
  -- `SSL_new` gives an object, and not NULL.
  pub has_session : Bool
  pub handshaken : Bool
  pub written : Bool
  pub received : List (List ℕ)

-- The answers to a request, by host, port and text of the request.
pub record Network : Type 0 where
  pub http : List ℕ → List ℕ → List ℕ → HttpRun
  pub https : List ℕ → List ℕ → List ℕ → HttpsRun

-- `while (rem > 0)`; no further answer is a failure.
unfoldable pub send_all : ℕ → List ℕ → Result (Unit {0})
send_all rem [] = throw_if (not (rem == 0)) send_failed
send_all rem (n ∷ sent) =
    if rem == 0 then ok tt else throw_if (n == 0) send_failed >> send_all (rem - n) sent

-- The loop that appends what each `recv` or `SSL_read` has put into the buffer.
unfoldable pub append_all : List ℕ → List (List ℕ) → List ℕ
append_all response [] = response
append_all response (chunk ∷ received) = append_all (response ++ chunk) received

-- `response.substr(response.find("\r\n\r\n") + 4)`, where there is one.
unfoldable pub skip_headers : List ℕ → Option (List ℕ)
skip_headers [] = none
skip_headers (c ∷ s) =
    let later = skip_headers s in
    if bytes_eq (take 4 (c ∷ s)) (crlf (crlf [])) then some (drop 4 (c ∷ s)) else later

unfoldable pub body_of : List ℕ → Result (List ℕ)
body_of response = elim (skip_headers response) [
  | none ↦ err malformed_response
  | some body ↦ ok body
]

unfoldable pub http_post : Network → List ℕ → ℤ → List ℕ → List ℕ → Result (List ℕ)
http_post network host port path body =
    let request = http_request host path body in
    let run = network.http host (int_to_string port) request in
    throw_if (not run.resolved) dns_failed
    >> (throw_if (not run.opened) socket_failed
        >> (throw_if (not run.connected) connect_failed
            >> (send_all (length request) run.sent >> body_of (append_all [] run.received))))

-- Compiled with TLS. What `SSL_new` gives is not checked before it is used.
unfoldable pub https_post : Network → List ℕ → ℤ → List ℕ → List ℕ → Result (List ℕ)
https_post network host port path body =
    let request = http_request host path body in
    let run = network.https host (int_to_string port) request in
    throw_if (not run.has_context) tls_failed
    >> (throw_if (not run.resolved) dns_failed
        >> (throw_if (not run.opened) socket_failed
            >> (throw_if (not run.connected) connect_failed
                >> (throw_if (not run.has_session) undefined_behaviour
                    >> (throw_if (not run.handshaken) tls_failed
                        >> (throw_if (not run.written) tls_failed
                            >> body_of (append_all [] run.received)))))))

unfoldable pub rpc_post : Network → RpcClient → List ℕ → Result (List ℕ)
rpc_post network client body =
    if client.proxy.enabled
    then http_post network client.proxy.host client.proxy.port client.path body
    else if client.tls
    then https_post network client.host client.port client.path body
    else http_post network client.host client.port client.path body
