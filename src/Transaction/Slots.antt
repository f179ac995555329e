-- ===== src/Transaction/Slots.antt =====
-- The signatures of a transaction that its fee payer has signed.
use solana_cpp_sdk.Base.{ℕ, ◌^◌, ◌<◌, ◌≡◌, arith, List, [], ◌∷◌}
use solana_cpp_sdk.Base.{length, replicate, length-replicate, All, All-replicate}
use solana_cpp_sdk.Base.{All-append, IsByte, Bool-cases, inl, inr}
use solana_cpp_sdk.PublicKey.{PublicKey, equals}
use solana_cpp_sdk.Transaction.{place, empty_signatures, serialize_signatures}
use solana_cpp_sdk.Transaction.Format.{IsSignature, signature_count_lem}
use solana_cpp_sdk.Message.Bytes.{concat_map-IsByte, compact_u16-IsByte}

-- 64 bytes.
abbrev pub IsWhole : List ℕ → Type 0
IsWhole s = IsSignature s × All IsByte s

pub empty_signatures-IsWhole : (n : ℕ) → All IsWhole (empty_signatures n)
unfolding empty_signatures
empty_signatures-IsWhole n =
    All-replicate IsWhole n (replicate 64 0)
      (length-replicate {A = ℕ} 64 0, All-replicate IsByte 64 0 (omega arith))

pub length-empty_signatures : (n : ℕ) → length (empty_signatures n) ≡ n
unfolding empty_signatures
length-empty_signatures n = length-replicate n (replicate 64 0)

pub place-IsWhole :
    (ks : List PublicKey) (ss : List (List ℕ)) (pk : PublicKey) (s : List ℕ)
    → All IsWhole ss
    → IsWhole s
    → All IsWhole (place ks ss pk s)
unfolding place
place-IsWhole [] ss pk s h w = h
place-IsWhole (k ∷ ks) [] pk s h w = tt
place-IsWhole (k ∷ ks) (x ∷ ss) pk s h w = elim (Bool-cases (equals k pk)) [
  | inl e ↦ rw e (w, h.1)
  | inr e ↦ rw (place, e) (h.0, place-IsWhole ks ss pk s h.1 w)
]

pub IsWhole-IsSignature : (ss : List (List ℕ)) → All IsWhole ss → All IsSignature ss
IsWhole-IsSignature [] h = tt
IsWhole-IsSignature (s ∷ ss) h = (h.0.0, IsWhole-IsSignature ss h.1)

pub serialize_signatures-IsByte :
    (ss : List (List ℕ))
    → length ss < 2 ^ 14
    → All IsWhole ss
    → All IsByte (serialize_signatures ss)
unfolding serialize_signatures
serialize_signatures-IsByte ss small h = rw (signature_count_lem (length ss) small) (
    All-append IsByte _ _ (compact_u16-IsByte (length ss))
      (concat_map-IsByte IsWhole (λ s. s) (λ s w. w.1) ss h))
