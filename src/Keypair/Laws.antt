-- ===== src/Keypair/Laws.antt =====
-- Key pairs from a seed: what they keep, and what they verify.
use solana_cpp_sdk.Base.{ℕ, ◌≡◌, arith, ap, sym, ◌∙◌, List, [], ◌++◌, true, length, take}
use solana_cpp_sdk.Base.{ok, ◌>>=◌, take-append, drop-append, append-nil, length-append}
use solana_cpp_sdk.Sodium.{Sodium, IsSodium}
use solana_cpp_sdk.Keypair.{Keypair, seed, secret_key, from_secret_key, from_seed, sign, verify}

pub take-all : (xs : List ℕ) (n : ℕ) → length xs ≡ n → take n xs ≡ xs
take-all xs n h = ap (take n) (sym (append-nil xs)) ∙ take-append xs [] n h

-- With libsodium initialised, a key pair made from a 32-byte seed gives the seed back, is restored
-- from its secret key, and verifies every message that it signed.
pub from_seed_lem :
    (s : Sodium) (bytes : List ℕ)
    → IsSodium s
    → s.ready ≡ true
    → length bytes ≡ 32
    → (kp : Keypair) × (from_seed s bytes ≡ ok kp)
      × (seed kp ≡ bytes)
      × (from_secret_key s (secret_key kp) ≡ ok kp)
      × ((m : List ℕ) → verify s kp m (sign s kp m) ≡ true)
unfolding from_seed seed from_secret_key secret_key verify sign
from_seed_lem s bytes laws ready len = (
  record { public_bytes = pk; secret_bytes = bytes ++ pk },
  rw (ready, ◌>>=◌, take-all pk 32 layout.1, secret),
  take-append bytes pk 32 len,
  rw (ready, ◌>>=◌, drop-append bytes pk 32 len, take-all pk 32 layout.1),
  λ m. rw (← layout.0) (laws.verify_sign bytes m len),
)
  where
    pk : List ℕ
    pk = (s.seed_keypair bytes).0

    layout : ((s.seed_keypair bytes).1 ≡ bytes ++ pk) × (length pk ≡ 32)
    layout = laws.keypair_layout bytes len

    secret : take 64 (s.seed_keypair bytes).1 ≡ bytes ++ pk
    secret =
        ap (take 64) layout.0
        ∙ take-all (bytes ++ pk) 64 (omega (arith, length-append bytes pk, len, layout.1))
