-- ===== src/Transaction/Versioned.antt =====
-- What `TransactionV0::sign` puts into which slot.
use solana_cpp_sdk.Base.{ℕ, ◌≡◌, List, ◌∷◌, ◌++◌, some, get_elem?, length, ok, ◌>>=◌}
use solana_cpp_sdk.Sodium.{Sodium}
use solana_cpp_sdk.PublicKey.{PublicKey}
use solana_cpp_sdk.Keypair.{Keypair}
use solana_cpp_sdk.Accounts.Laws.{Distinct}
use solana_cpp_sdk.MessageV0
use solana_cpp_sdk.Transaction.{
  TransactionV0, sign_all, sign_v0, serialize_v0, serialize_signatures,
}
use solana_cpp_sdk.Transaction.Laws.{last_signature, sign_all_slot, length-sign_all}

-- Where the V0 message serializes to some bytes, its static keys are distinct and there is a signer,
-- `sign` keeps the number of signatures, and in the slot of each static key stands the signature,
-- over those bytes, of the last signer that has the key, or what stood there if no signer has it.
-- The signed transaction is serialized as the signatures, the byte 0x80 and those bytes: the
-- signatures do not cover the byte 0x80.
pub sign_v0_slots :
    (sodium : Sodium) (tx : TransactionV0) (kp : Keypair) (signers : List Keypair) (bytes : List ℕ)
    → MessageV0.serialize tx.message ≡ ok bytes
    → Distinct tx.message.static_account_keys
    → (i : ℕ) (k : PublicKey) (old : List ℕ) → get_elem? tx.message.static_account_keys i ≡ some k
    → get_elem? tx.signatures i ≡ some old
    → (tx' : TransactionV0) × (sign_v0 sodium tx (kp ∷ signers) ≡ ok tx')
      × (length tx'.signatures ≡ length tx.signatures)
      × (get_elem? tx'.signatures i ≡ some (last_signature sodium bytes k old (kp ∷ signers)))
      × (serialize_v0 tx' ≡ ok (serialize_signatures tx'.signatures ++ (0x80 ∷ bytes)))
unfolding sign_v0 serialize_v0
sign_v0_slots sodium tx kp signers bytes e d i k old hk hs =
    let ks = tx.message.static_account_keys in
    (
      record tx { signatures = sign_all sodium ks bytes tx.signatures (kp ∷ signers) },
      rw (e, ◌>>=◌),
      length-sign_all sodium ks bytes tx.signatures (kp ∷ signers),
      sign_all_slot sodium ks bytes tx.signatures (kp ∷ signers) k old i d hk hs,
      rw (e, ◌>>=◌),
    )
