-- ===== src/PublicKey/Laws.antt =====
-- Equality of keys, their text form, and the keys made from counters.
use solana_cpp_sdk.Base.{ℕ, ◌^◌, ◌<◌, ◌≡◌, refl, arith, ap, List}
use solana_cpp_sdk.Base.{◌↔◌, ok, ◌>>=◌, bytes_eq_sound, bytes_eq_refl, ◌==◌, ==_iff, true}
use solana_cpp_sdk.Base.{get_or, Bool-cases, inl, inr}
use solana_cpp_sdk.PublicKey.{PublicKey, IsPublicKey, equals, from_base58, to_base58, from_u64}
use solana_cpp_sdk.Base58.RoundTrip.{decode-encode}

pub key_eq : (a b : PublicKey) → a.bytes ≡ b.bytes → a ≡ b
key_eq a b e = λ i. record { bytes = e i }

-- `equals` answers whether two keys are the same.
pub equals_iff : (a b : PublicKey) → (equals a b ≡ true) ↔ (a ≡ b)
unfolding equals
equals_iff a b =
    (λ h. key_eq a b (bytes_eq_sound a.bytes b.bytes h), λ e. rw (← e) (bytes_eq_refl a.bytes))

-- The base58 text of a key reads back as the key.
pub from_base58-to_base58 :
    (k : PublicKey)
    → IsPublicKey k
    → (text : List ℕ) × (to_base58 k ≡ ok text) × (from_base58 text ≡ ok k)
unfolding to_base58 from_base58
from_base58-to_base58 k v =
    let (text, e, d) = decode-encode k.bytes v.1 in
    (text, e, rw (d, ◌>>=◌, (==_iff _ _).1 v.0) refl)

from_u64-injective : (a b : ℕ) → a < 2 ^ 64 → b < 2 ^ 64 → from_u64 a ≡ from_u64 b → a ≡ b
unfolding from_u64
from_u64-injective a b ha hb e =
    omega (arith, at 24, at 25, at 26, at 27, at 28, at 29, at 30, at 31)
  where
    at : (i : ℕ) → get_or (from_u64 a).bytes i 0 ≡ get_or (from_u64 b).bytes i 0
    at i = ap (λ k. get_or k.bytes i 0) e

-- The keys made from two 64-bit numbers are equal exactly if the numbers are.
pub equals-from_u64 :
    (a b : ℕ) → a < 2 ^ 64 → b < 2 ^ 64 → equals (from_u64 a) (from_u64 b) ≡ (a == b)
equals-from_u64 a b ha hb = elim (Bool-cases (a == b)) [
  | inl e ↦
      let same : a ≡ b = (==_iff a b).0 e in
      rw e ((equals_iff (from_u64 a) (from_u64 b)).1 (ap from_u64 same))
  | inr e ↦ elim (Bool-cases (equals (from_u64 a) (from_u64 b))) [
    | inl h ↦
        let same =
          (==_iff a b).1
            (from_u64-injective a b ha hb ((equals_iff (from_u64 a) (from_u64 b)).0 h)) in
        cc
    | inr h ↦ rw (e, h)
  ]
]
