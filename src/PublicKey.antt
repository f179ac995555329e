-- ===== src/PublicKey.antt =====
-- src/solana/publicKey.cpp: public keys and the addresses derived from them. The libsodium
-- functions come as a parameter.
pub mod Laws
pub mod Derived
pub mod Rederived
pub mod Texts
pub mod Found
use solana_cpp_sdk.Base.{ℕ, zero, suc, ◌+◌, ◌-◌, ◌*◌, ◌/◌, ◌%◌, ◌^◌, ◌≡◌, List, [], ◌∷◌, ◌++◌}
use solana_cpp_sdk.Base.{Bool, true, false, not, length, All, IsByte, u8, set, replicate, ltb, ◌==◌}
use solana_cpp_sdk.Base.{bytes_eq, concat_map, codes, if◌then◌else◌, Error, Result, ok, err, ◌>>=◌}
use solana_cpp_sdk.Base.{◌>>◌, throw_if, is_runtime_error, invalid_public_key_input, on_curve}
use solana_cpp_sdk.Base.{invalid_public_key_length, seed_too_long, seed_exceeds, no_valid_pda}
use solana_cpp_sdk.Base58
use solana_cpp_sdk.Sodium.{Sodium}

-- `std::array<uint8_t, 32> _bytes`.
pub record PublicKey : Type 0 where
  pub bytes : List ℕ

abbrev pub IsPublicKey : PublicKey → Type 0
IsPublicKey k = (length k.bytes ≡ 32) × All IsByte k.bytes

-- `PublicKey()` and `PublicKey::Default`.
unfoldable pub default_key : PublicKey
default_key = record { bytes = replicate 32 0 }

-- `for (i = 0; i < 8; i++) _bytes[31 - i] = value >> (8 * i)`, with the rounds left and `i`.
unfoldable pub store_u64 : ℕ → ℕ → ℕ → List ℕ → List ℕ
store_u64 zero i value bytes = bytes
store_u64 (suc rounds) i value bytes =
    store_u64 rounds (i + 1) value (set bytes (32 - 1 - i) (u8 (value / 2 ^ (8 * i))))

unfoldable pub from_u64 : ℕ → PublicKey
unfolding store_u64
from_u64 value = record { bytes = store_u64 8 0 value (replicate 32 0) }

unfoldable pub from_base58 : List ℕ → Result PublicKey
from_base58 text = do
  decoded ← Base58.decode text
  throw_if (not (length decoded == 32)) invalid_public_key_input
  ok (record { bytes = decoded })

unfoldable pub from_vector : List ℕ → Result PublicKey
from_vector bytes = do
  throw_if (not (length bytes == 32)) invalid_public_key_length
  ok (record { bytes = bytes })

unfoldable pub from_array : List ℕ → PublicKey
from_array bytes = record { bytes = bytes }

-- `static uint64_t counter`: the key, and the counter after the call.
unfoldable pub unique : ℕ → PublicKey × ℕ
unique counter = (from_u64 counter, (counter + 1) % 2 ^ 64)

unfoldable pub equals : PublicKey → PublicKey → Bool
equals a b = bytes_eq a.bytes b.bytes

unfoldable pub to_base58 : PublicKey → Result (List ℕ)
to_base58 k = Base58.encode k.bytes

unfoldable pub to_bytes : PublicKey → List ℕ
to_bytes k = k.bytes

unfoldable pub to_buffer : PublicKey → List ℕ
to_buffer k = k.bytes

-- The string "ProgramDerivedAddress", 21 bytes.
unfoldable pub marker : List ℕ
marker = codes "ProgramDerivedAddress"

unfoldable pub any_too_long : List (List ℕ) → Bool
any_too_long [] = false
any_too_long (seed ∷ seeds) = if ltb 32 (length seed) then true else any_too_long seeds

module _ (sodium : Sodium) where
  unfoldable pub is_on_curve : PublicKey → Bool
  is_on_curve key = sodium.is_valid_point (to_buffer key)

  unfoldable pub create_with_seed : PublicKey → List ℕ → PublicKey → Result PublicKey
  create_with_seed from seed program_id = do
    throw_if (ltb 32 (length seed)) seed_too_long
    let hash = sodium.sha256 (to_buffer from ++ (seed ++ to_buffer program_id))
    ok (from_array hash)

  unfoldable pub derive_hash : List (List ℕ) → PublicKey → List ℕ
  derive_hash seeds program_id =
      sodium.sha256 (concat_map (λ seed. seed) seeds ++ (to_buffer program_id ++ marker))

  unfoldable pub create_program_address : List (List ℕ) → PublicKey → Result PublicKey
  create_program_address seeds program_id = do
    throw_if (any_too_long seeds) seed_exceeds
    let hash = derive_hash seeds program_id
    throw_if (sodium.is_valid_point hash) on_curve
    ok (from_array hash)

  -- What the handler does with an error of one attempt: `continue` on a runtime error, and any
  -- other error leaves the loop.
  unfoldable pub catch_runtime_error :
      Result PublicKey → ℕ → Result (PublicKey × ℕ) → Result (PublicKey × ℕ)
  catch_runtime_error (ok address) bump next = ok (address, bump)
  catch_runtime_error (err e) bump next = if is_runtime_error e then next else err e

  -- The loop over the bumps below the first argument, from the highest down to 0.
  unfoldable pub find_below : ℕ → List (List ℕ) → PublicKey → Result (PublicKey × ℕ)
  find_below zero seeds program_id = err no_valid_pda
  find_below (suc bump) seeds program_id =
      let next = find_below bump seeds program_id in
      catch_runtime_error (create_program_address (seeds ++ ((u8 bump ∷ []) ∷ [])) program_id)
        (u8 bump) next

  unfoldable pub find_program_address : List (List ℕ) → PublicKey → Result (PublicKey × ℕ)
  find_program_address seeds program_id = find_below 256 seeds program_id
