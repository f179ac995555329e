-- ===== src/Transaction.antt =====
-- src/solana/transaction.cpp: the signed transactions, legacy and V0.
pub mod Laws
pub mod Format
pub mod Versioned
pub mod Slots
pub mod EndToEnd
pub mod EndToEndV0
use solana_cpp_sdk.Base.{
  ℕ, ◌/◌, ◌^◌, List, [], ◌∷◌, ◌++◌, Bool, ltb, if◌then◌else◌, u8, u16, length,
}
use solana_cpp_sdk.Base.{replicate, concat_map, bit_and, bit_or, Result, ok, err, ◌>>=◌, no_signers}
use solana_cpp_sdk.Sodium.{Sodium}
use solana_cpp_sdk.PublicKey.{PublicKey, equals}
use solana_cpp_sdk.Keypair
use solana_cpp_sdk.Keypair.{Keypair}
use solana_cpp_sdk.Message
use solana_cpp_sdk.Message.{Message}
use solana_cpp_sdk.MessageV0
use solana_cpp_sdk.MessageV0.{MessageV0}
use solana_cpp_sdk.Base64.{base64_encode}

pub record Transaction : Type 0 where
  pub message : Message
  pub signatures : List (List ℕ)

pub record TransactionV0 : Type 0 where
  pub message : MessageV0
  pub signatures : List (List ℕ)

-- `_signatures.assign(numSigs, std::array<uint8_t, 64>{})`
unfoldable pub empty_signatures : ℕ → List (List ℕ)
empty_signatures n = replicate n (replicate 64 0)

unfoldable pub make : Message → Transaction
make message = record {
  message = message;
  signatures = empty_signatures message.header.num_required_signatures;
}

unfoldable pub make_v0 : MessageV0 → TransactionV0
make_v0 message = record {
  message = message;
  signatures = empty_signatures message.header.num_required_signatures;
}

-- The inner loop of `sign`: `i` runs while it is below both sizes, up to the first key that equals
-- the signer's.
unfoldable pub place : List PublicKey → List (List ℕ) → PublicKey → List ℕ → List (List ℕ)
place [] signatures pk signature = signatures
place (k ∷ ks) [] pk signature = []
place (k ∷ ks) (s ∷ ss) pk signature =
    if equals k pk then signature ∷ ss else s ∷ place ks ss pk signature

module _ (sodium : Sodium) where
  unfoldable pub sign_all : List PublicKey → List ℕ → List (List ℕ) → List Keypair → List (List ℕ)
  sign_all ks bytes signatures [] = signatures
  sign_all ks bytes signatures (kp ∷ signers) =
      sign_all ks bytes (place ks signatures (Keypair.public_key kp) (Keypair.sign sodium kp bytes))
        signers

  unfoldable pub sign : Transaction → List Keypair → Result Transaction
  sign tx [] = err no_signers
  sign tx (kp ∷ signers) = do
    bytes ← Message.serialize tx.message
    ok (record tx {
      signatures = sign_all tx.message.account_keys bytes tx.signatures (kp ∷ signers);
    })

  unfoldable pub sign_v0 : TransactionV0 → List Keypair → Result TransactionV0
  sign_v0 tx [] = err no_signers
  sign_v0 tx (kp ∷ signers) = do
    bytes ← MessageV0.serialize tx.message
    ok (record tx {
      signatures = sign_all tx.message.static_account_keys bytes tx.signatures (kp ∷ signers);
    })

-- The signature count: one byte, or two if the count has more than seven bits.
unfoldable pub signature_count : ℕ → List ℕ
signature_count size =
    let count = u16 size in
    let b = bit_and count 0x7f in
    let count' = count / 2 ^ 7 in
    if ltb 0 count' then u8 (bit_or b 0x80) ∷ u8 count' ∷ [] else b ∷ []

unfoldable pub serialize_signatures : List (List ℕ) → List ℕ
serialize_signatures signatures =
    signature_count (length signatures) ++ concat_map (λ s. s) signatures

unfoldable pub serialize : Transaction → Result (List ℕ)
serialize tx = do
  bytes ← Message.serialize tx.message
  ok (serialize_signatures tx.signatures ++ bytes)

unfoldable pub to_base64 : Transaction → Result (List ℕ)
to_base64 tx = do bytes ← serialize tx; ok (base64_encode bytes)

-- 0x80 is the version prefix.
unfoldable pub serialize_v0 : TransactionV0 → Result (List ℕ)
serialize_v0 tx = do
  bytes ← MessageV0.serialize tx.message
  ok (serialize_signatures tx.signatures ++ (0x80 ∷ bytes))

unfoldable pub to_base64_v0 : TransactionV0 → Result (List ℕ)
to_base64_v0 tx = do bytes ← serialize_v0 tx; ok (base64_encode bytes)
