-- ===== src/Sodium.antt =====
-- The functions of libsodium that the SDK calls, as parameters: none of their code is in the
-- repository. `IsSodium` is what its manual documents.
use solana_cpp_sdk.Base.{ℕ, ◌≡◌, List, ◌++◌, Bool, true, length, All, IsByte}

pub record Sodium : Type 0 where
  -- `sodium_init() >= 0`
  pub ready : Bool
  -- `crypto_hash_sha256_init`, any number of `_update`s and `_final`: the hash of the bytes given
  -- to the updates, one after the other.
  pub sha256 : List ℕ → List ℕ
  -- `crypto_core_ed25519_is_valid_point`
  pub is_valid_point : List ℕ → Bool
  -- `crypto_sign_seed_keypair`: the public and the secret key.
  pub seed_keypair : List ℕ → List ℕ × List ℕ
  -- `crypto_sign_detached` of a message and a secret key.
  pub sign_detached : List ℕ → List ℕ → List ℕ
  -- `crypto_sign_verify_detached` of a signature, a message and a public key is 0.
  pub verify_detached : List ℕ → List ℕ → List ℕ → Bool

pub record IsSodium (s : Sodium) : Type 0 where
  -- The secret key is the seed followed by the public key.
  pub keypair_layout :
      (seed : List ℕ)
      → length seed ≡ 32
      → ((s.seed_keypair seed).1 ≡ seed ++ (s.seed_keypair seed).0)
        × (length (s.seed_keypair seed).0 ≡ 32)
  pub verify_sign :
      (seed m : List ℕ)
      → length seed ≡ 32
      → s.verify_detached (s.sign_detached m (s.seed_keypair seed).1) m (s.seed_keypair seed).0
        ≡ true

-- What libsodium writes are bytes: a signature has 64, and a hash 32.
pub record WritesBytes (s : Sodium) : Type 0 where
  pub signature_bytes :
      (m key : List ℕ) → (length (s.sign_detached m key) ≡ 64) × All IsByte (s.sign_detached m key)
  pub key_bytes :
      (seed : List ℕ) → length seed ≡ 32 → All IsByte seed → All IsByte (s.seed_keypair seed).0
  pub hash_bytes : (m : List ℕ) → (length (s.sha256 m) ≡ 32) × All IsByte (s.sha256 m)
