-- ===== src/Rpc/Exceptions.antt =====
-- src/solana/rpc_client.cpp: what the HTTP exchange may throw, and where it is undefined.
use solana_cpp_sdk.Base.{ℕ, ◌≡◌, refl, Bool, true, false, not, ◌-◌, ◌==◌, ◌&&◌, List, [], ◌∷◌}
use solana_cpp_sdk.Base.{Option-cases, Result, ok, err, Error, throw_if, ◌>>◌, is_exception}
use solana_cpp_sdk.Base.{length, Bool-cases, inl, inr, send_failed, dns_failed, socket_failed}
use solana_cpp_sdk.Base.{connect_failed, tls_failed}
use solana_cpp_sdk.Base.{ℤ}
use solana_cpp_sdk.Rpc.{RpcClient}
use solana_cpp_sdk.Rpc.Http.{
  Network, HttpsRun, send_all, skip_headers, body_of, append_all, http_post, https_post, rpc_post,
  http_request, int_to_string,
}

-- A call that returns or throws an exception, and has no undefined behaviour.
abbrev pub is_safe {ℓ} : {A : Type ℓ} → Result A → Bool
is_safe (err e) = is_exception e
is_safe (ok a) = true

-- OpenSSL makes no object for a connection that was opened.
abbrev pub lacks_session : HttpsRun → Bool
lacks_session run =
    run.has_context && (run.resolved && (run.opened && (run.connected && not run.has_session)))

-- The request goes out over TLS, without a proxy, and meets that.
abbrev pub loses_session : Network → RpcClient → List ℕ → Bool
loses_session network client body =
    not client.proxy.enabled
    && (client.tls
        && lacks_session (
            network.https client.host (int_to_string client.port)
              (http_request client.host client.path body)))

throw_if_safe {ℓ} :
    {A : Type ℓ} (b : Bool) (e : Error) (r : Result A)
    → is_exception e ≡ true
    → is_safe r ≡ true
    → is_safe (throw_if b e >> r) ≡ true
throw_if_safe true e r h k = h
throw_if_safe false e r h k = k

send_all_safe : (rem : ℕ) (sent : List ℕ) → is_safe (send_all rem sent) ≡ true
unfolding send_all
send_all_safe rem [] = elim (Bool-cases (rem == 0)) [ inl e ↦ rw e refl | inr e ↦ rw e refl ]
send_all_safe rem (n ∷ sent) = elim (Bool-cases (rem == 0)) [
  | inl e ↦ rw e refl
  | inr e ↦
      rw (send_all, e)
        (throw_if_safe (n == 0) send_failed (send_all (rem - n) sent) refl
          (send_all_safe (rem - n) sent))
]

body_of_safe : (response : List ℕ) → is_safe (body_of response) ≡ true
unfolding body_of
body_of_safe response = elim (Option-cases (skip_headers response)) [
  | inl e ↦ rw (body_of, e) refl
  | inr (body, e) ↦ rw (body_of, e) refl
]

then_safe {ℓ} :
    {A : Type ℓ} (first : Result (Unit {0})) (r : Result A)
    → is_safe first ≡ true
    → is_safe r ≡ true
    → is_safe (first >> r) ≡ true
then_safe (err e) r h k = h
then_safe (ok done) r h k = k

module _ (network : Network) where
  http_post_safe :
      (host : List ℕ) (port : ℤ) (path body : List ℕ)
      → is_safe (http_post network host port path body) ≡ true
  unfolding http_post
  http_post_safe host port path body =
      let request = http_request host path body in
      let run = network.http host (int_to_string port) request in
      let done =
        then_safe (send_all (length request) run.sent) (body_of (append_all [] run.received))
          (send_all_safe (length request) run.sent) (body_of_safe (append_all [] run.received)) in
      throw_if_safe (not run.resolved) dns_failed _ refl (
        throw_if_safe (not run.opened) socket_failed _ refl
          (throw_if_safe (not run.connected) connect_failed _ refl done))

  https_post_safe :
      (host : List ℕ) (port : ℤ) (path body : List ℕ)
      → is_safe (https_post network host port path body)
        ≡ not
            (lacks_session (network.https host (int_to_string port) (http_request host path body)))
  unfolding https_post
  https_post_safe host port path body =
      let run = network.https host (int_to_string port) (http_request host path body) in
      let done = body_of_safe (append_all [] run.received) in
      elim (Bool-cases run.has_context) [
        | inr c ↦ rw c refl
        | inl c ↦ elim (Bool-cases run.resolved) [
          | inr r ↦ rw (c, r) refl
          | inl r ↦ elim (Bool-cases run.opened) [
            | inr o ↦ rw (c, r, o) refl
            | inl o ↦ elim (Bool-cases run.connected) [
              | inr n ↦ rw (c, r, o, n) refl
              | inl n ↦ elim (Bool-cases run.has_session) [
                | inr s ↦ rw (c, r, o, n, s) refl
                | inl s ↦
                    rw (c, r, o, n, s)
                      (throw_if_safe (not run.handshaken) tls_failed _ refl
                        (throw_if_safe (not run.written) tls_failed _ refl done))
              ]
            ]
          ]
        ]
      ]

  -- rpcPost has undefined behaviour exactly if there is no proxy, the endpoint has TLS, the context
  -- is made, the host is resolved, the socket is opened and connected, and SSL_new gives no object.
  -- Else it returns a body or throws an exception.
  pub rpc_post_safe :
      (client : RpcClient) (body : List ℕ)
      → is_safe (rpc_post network client body) ≡ not (loses_session network client body)
  unfolding rpc_post
  rpc_post_safe client body = elim (Bool-cases client.proxy.enabled) [
    | inl e ↦ rw e (http_post_safe client.proxy.host client.proxy.port client.path body)
    | inr e ↦ elim (Bool-cases client.tls) [
      | inl f ↦ rw (e, f) (https_post_safe client.host client.port client.path body)
      | inr f ↦ rw (e, f) (http_post_safe client.host client.port client.path body)
    ]
  ]
