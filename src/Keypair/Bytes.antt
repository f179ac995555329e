-- ===== src/Keypair/Bytes.antt =====
-- `Keypair::fromSeed`: the public key that it makes.
use solana_cpp_sdk.Base.{ℕ, ◌≡◌, true, List, All, IsByte, length, take, ok, ◌>>=◌}
use solana_cpp_sdk.Sodium.{Sodium, IsSodium, WritesBytes}
use solana_cpp_sdk.PublicKey.{IsPublicKey, from_array}
use solana_cpp_sdk.Keypair.Laws.{take-all}
use solana_cpp_sdk.Keypair.{Keypair, from_seed, public_key}

-- With libsodium initialised, a seed of 32 bytes makes a key pair whose public key has 32 bytes.
pub from_seed-IsPublicKey :
    (s : Sodium) (seed : List ℕ)
    → IsSodium s
    → WritesBytes s
    → s.ready ≡ true
    → length seed ≡ 32
    → All IsByte seed
    → (kp : Keypair) × (from_seed s seed ≡ ok kp) × IsPublicKey (public_key kp)
unfolding from_seed public_key from_array
from_seed-IsPublicKey s seed laws writes ready len bytes =
    let pk = (s.seed_keypair seed).0 in
    let size : length pk ≡ 32 = (laws.keypair_layout seed len).1 in
    let whole = take-all pk 32 size in
    (
      record { public_bytes = take 32 pk; secret_bytes = take 64 (s.seed_keypair seed).1 },
      rw (ready, ◌>>=◌),
      rw whole (size, writes.key_bytes seed len bytes),
    )
