-- ===== src/Rpc/Delivery.antt =====
-- src/solana/rpc_client.cpp: what `httpPost` returns when its calls succeed.
use solana_cpp_sdk.Base.{ℕ, ◌+◌, ◌-◌, ◌<◌, ◌≤◌, List, [], ◌∷◌, ◌++◌, Bool, true, false, ◌≡◌, ◌≢◌}
use solana_cpp_sdk.Base.{refl, ap, ◌∙◌, sym, arith, All, length, none, some, ok, concat_map}
use solana_cpp_sdk.Base.{take, drop, bytes_eq, Bool-cases, inl, inr, append_assoc, append-nil, ◌==◌}
use solana_cpp_sdk.Base.{ℤ}
use solana_cpp_sdk.Rpc.Http.{Network, http_post, http_request, int_to_string, send_all, append_all}
use solana_cpp_sdk.Rpc.Http.{skip_headers, body_of, crlf}

abbrev pub sum : List ℕ → ℕ
sum [] = 0
sum (n ∷ ns) = n + sum ns

positive : (n : ℕ) → 0 < n → (n == 0) ≡ false
positive n h = ground arith

send_all-sum :
    (sent : List ℕ) (rem : ℕ) → All (λ n. 0 < n) sent → rem ≤ sum sent → send_all rem sent ≡ ok tt
unfolding send_all
send_all-sum [] rem h k = let done : (rem == 0) ≡ true = ground arith in rw done refl
send_all-sum (n ∷ sent) rem h k = elim (Bool-cases (rem == 0)) [
  | inl e ↦ rw (send_all, e) refl
  | inr e ↦
      let more : (n == 0) ≡ false = positive n h.0 in
      rw (send_all, e, more) (send_all-sum sent (rem - n) h.1 (omega arith))
]

append_all-concat :
    (received : List (List ℕ)) (response : List ℕ)
    → append_all response received ≡ response ++ concat_map (λ chunk. chunk) received
unfolding append_all
append_all-concat [] response = sym (append-nil response)
append_all-concat (chunk ∷ received) response =
    append_all-concat received (response ++ chunk)
    ∙ append_assoc response chunk (concat_map (λ c. c) received)

-- The first four bytes do not tell whether the separator is cut off behind its third.
same_start :
    (c : ℕ) (s rest : List ℕ)
    → take 4 (c ∷ (s ++ (13 ∷ 10 ∷ 13 ∷ []))) ≡ take 4 (c ∷ (s ++ crlf (crlf rest)))
same_start c [] rest = refl
same_start c (a ∷ []) rest = refl
same_start c (a ∷ b ∷ []) rest = refl
same_start c (a ∷ b ∷ d ∷ s) rest = refl

is_separator : List ℕ → Bool
is_separator s = bytes_eq (take 4 s) (crlf (crlf []))

empty_headers : (reply : List ℕ) → skip_headers (crlf (crlf reply)) ≡ some reply
unfolding skip_headers
empty_headers reply = refl

hit : (c : ℕ) (s : List ℕ) → is_separator (c ∷ s) ≡ true → skip_headers (c ∷ s) ≢ none
unfolding skip_headers is_separator
hit c s h e =
    let found : skip_headers (c ∷ s) ≡ some (drop 4 (c ∷ s)) = rw (skip_headers, h) refl in cc

miss : (c : ℕ) (s : List ℕ) → is_separator (c ∷ s) ≡ false → skip_headers (c ∷ s) ≡ skip_headers s
unfolding skip_headers is_separator
miss c s h = rw (skip_headers, h) refl

skip_headers-first :
    (headers reply : List ℕ)
    → skip_headers (headers ++ (13 ∷ 10 ∷ 13 ∷ [])) ≡ none
    → skip_headers (headers ++ crlf (crlf reply)) ≡ some reply
unfolding is_separator
skip_headers-first [] reply h = empty_headers reply
skip_headers-first (c ∷ s) reply h =
    let cut = s ++ (13 ∷ 10 ∷ 13 ∷ []) in
    let full = s ++ crlf (crlf reply) in
    elim (Bool-cases (is_separator (c ∷ cut))) [
      | inl e ↦ absurd (hit c cut e h)
      | inr e ↦
          let same = ap (λ t. bytes_eq t (crlf (crlf []))) (sym (same_start c s reply)) in
          miss c full (same ∙ e) ∙ skip_headers-first s reply (sym (miss c cut e) ∙ h)
    ]

body_of-some :
    (response reply : List ℕ) → skip_headers response ≡ some reply → body_of response ≡ ok reply
unfolding body_of
body_of-some response reply h = rw (body_of, h) refl

-- If the host is resolved and connected, every send takes at least one byte and all together take
-- the request, and what recv gives is, put together, some headers, the empty line and a reply,
-- where no empty line comes earlier, then httpPost returns the reply.
pub http_post-delivers :
    (network : Network) (host path body headers reply : List ℕ) (port : ℤ) (sent : List ℕ)
    (received : List (List ℕ))
    → network.http host (int_to_string port) (http_request host path body) ≡ record {
      resolved = true;
      opened = true;
      connected = true;
      sent = sent;
      received = received;
    }
    → All (λ n. 0 < n) sent
    → length (http_request host path body) ≤ sum sent
    → concat_map (λ chunk. chunk) received ≡ headers ++ crlf (crlf reply)
    → skip_headers (headers ++ (13 ∷ 10 ∷ 13 ∷ [])) ≡ none
    → http_post network host port path body ≡ ok reply
unfolding http_post
http_post-delivers network host path body headers reply port sent received e h n f first =
    let read : skip_headers (append_all [] received) ≡ some reply =
      ap skip_headers (append_all-concat received [] ∙ f)
      ∙ skip_headers-first headers reply first in
    rw (e, send_all-sum sent (length (http_request host path body)) h n)
      (body_of-some (append_all [] received) reply read)
