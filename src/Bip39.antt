-- ===== src/Bip39.antt =====
-- src/solana/bip39.cpp: seeds from mnemonics. The HMAC of libsodium comes as a parameter.
pub mod Bits
pub mod Laws
use Prim.Native.Nat.{bit_xor}
use solana_cpp_sdk.Base.{
  ℕ, zero, suc, ◌+◌, ◌-◌, ◌*◌, ◌/◌, ◌^◌, List, [], ◌∷◌, ◌++◌, Bool, not, take, ltb,
}
use solana_cpp_sdk.Base.{
  if◌then◌else◌, codes, u8, u32, Result, ok, ◌>>◌, ◌>>=◌, throw_if, sodium_init_failed,
}

pub record HmacSodium : Type 0 where
  -- `sodium_init() >= 0`
  pub ready : Bool
  -- `crypto_auth_hmacsha512_init` with a key, one `_update` and `_final`.
  pub hmacsha512 : List ℕ → List ℕ → List ℕ

-- `T[j] ^= U[j]` for each `j`.
unfoldable pub xor_bytes : List ℕ → List ℕ → List ℕ
xor_bytes [] us = []
xor_bytes (t ∷ ts) [] = t ∷ ts
xor_bytes (t ∷ ts) (u ∷ us) = bit_xor t u ∷ xor_bytes ts us

-- The salt with the number of the block behind it, its highest byte first.
unfoldable pub salt_block : List ℕ → ℕ → List ℕ
salt_block salt block =
    salt ++ (u8 (block / 2 ^ 24) ∷ u8 (block / 2 ^ 16) ∷ u8 (block / 2 ^ 8) ∷ u8 block ∷ [])

-- `for (i = 1; i < iterations; ++i)`, with the rounds left, `U` and `T`.
unfoldable pub mix : HmacSodium → List ℕ → ℕ → List ℕ → List ℕ → List ℕ
mix sodium password zero u t = t
mix sodium password (suc rounds) u t =
    let u' = sodium.hmacsha512 password u in mix sodium password rounds u' (xor_bytes t u')

unfoldable pub derive_block : HmacSodium → List ℕ → List ℕ → ℕ → ℕ → List ℕ
derive_block sodium password salt iterations block =
    let u = sodium.hmacsha512 password (salt_block salt block) in
    mix sodium password (iterations - 1) u u

-- The blocks from `block` on, with the number of them left, cut off at `outlen` bytes in all.
unfoldable pub derive_blocks : HmacSodium → List ℕ → List ℕ → ℕ → ℕ → ℕ → ℕ → List ℕ
derive_blocks sodium password salt iterations zero block outlen = []
derive_blocks sodium password salt iterations (suc count) block outlen =
    let left = outlen - (block - 1) * 64 in
    let to_copy = if ltb left 64 then left else 64 in
    take to_copy (derive_block sodium password salt iterations block)
    ++ derive_blocks sodium password salt iterations count (block + 1) outlen

unfoldable pub pbkdf2_hmac_sha512 : HmacSodium → List ℕ → List ℕ → ℕ → ℕ → Result (List ℕ)
pbkdf2_hmac_sha512 sodium password salt iterations outlen =
    throw_if (not sodium.ready) sodium_init_failed
    >> ok (derive_blocks sodium password salt iterations (u32 ((outlen + 64 - 1) / 64)) 1 outlen)

unfoldable pub mnemonic_to_seed : HmacSodium → List ℕ → List ℕ → Result (List ℕ)
mnemonic_to_seed sodium mnemonic passphrase =
    pbkdf2_hmac_sha512 sodium mnemonic (codes "mnemonic" ++ passphrase) 2048 64

unfoldable pub mnemonic_to_keypair_seed : HmacSodium → List ℕ → List ℕ → Result (List ℕ)
mnemonic_to_keypair_seed sodium mnemonic passphrase =
    mnemonic_to_seed sodium mnemonic passphrase >>= λ full. ok (take 32 full)
