-- ===== src/Keypair.antt =====
-- src/solana/keypair.cpp. The key pair that `crypto_sign_keypair` draws is an argument.
pub mod Laws
pub mod Bytes
use solana_cpp_sdk.Base.{ℕ, List, Bool, not, take, drop, Result, ok, ◌>>=◌, ◌>>◌, throw_if}
use solana_cpp_sdk.Base.{sodium_init_failed}
use solana_cpp_sdk.Base58
use solana_cpp_sdk.Sodium.{Sodium}
use solana_cpp_sdk.PublicKey.{PublicKey, from_array}

pub record Keypair : Type 0 where
  pub public_bytes : List ℕ
  pub secret_bytes : List ℕ

unfoldable pub public_key : Keypair → PublicKey
public_key kp = from_array kp.public_bytes

unfoldable pub secret_key : Keypair → List ℕ
secret_key kp = kp.secret_bytes

-- The first 32 bytes of the secret key.
unfoldable pub seed : Keypair → List ℕ
seed kp = take 32 kp.secret_bytes

unfoldable pub to_base58_secret_key : Keypair → Result (List ℕ)
to_base58_secret_key kp = Base58.encode kp.secret_bytes

module _ (sodium : Sodium) where
  unfoldable pub generate : List ℕ × List ℕ → Result Keypair
  generate drawn = do
    throw_if (not sodium.ready) sodium_init_failed
    ok (record { public_bytes = take 32 drawn.0; secret_bytes = take 64 drawn.1 })

  unfoldable pub from_secret_key : List ℕ → Result Keypair
  from_secret_key key = do
    throw_if (not sodium.ready) sodium_init_failed
    ok (record { public_bytes = take 32 (drop 32 key); secret_bytes = key })

  unfoldable pub from_seed : List ℕ → Result Keypair
  from_seed s = do
    throw_if (not sodium.ready) sodium_init_failed
    let pair = sodium.seed_keypair s
    ok (record { public_bytes = take 32 pair.0; secret_bytes = take 64 pair.1 })

  unfoldable pub sign : Keypair → List ℕ → List ℕ
  sign kp message = sodium.sign_detached message kp.secret_bytes

  unfoldable pub verify : Keypair → List ℕ → List ℕ → Bool
  verify kp message signature = sodium.verify_detached signature message kp.public_bytes
