-- ===== src/Accounts.antt =====
-- The table of accounts that both `compile` functions build: `AccountInfo` and `findOrAddStatic` of
-- src/solana/message_v0.cpp. src/solana/message.cpp keeps the same table in three vectors.
pub mod Laws
pub mod Counts
use solana_cpp_sdk.Base.{ℕ, ◌+◌, List, [], ◌∷◌, map, Bool, true, false, ◌&&◌, ◌||◌, if◌then◌else◌}
use solana_cpp_sdk.Base.{Option, none, some, u8}
use solana_cpp_sdk.PublicKey.{PublicKey, equals}

pub record AccountInfo : Type 0 where
  pub key : PublicKey
  pub is_signer : Bool
  pub is_writable : Bool

unfoldable pub upgrade : AccountInfo → Bool → Bool → AccountInfo
upgrade a signer writable = record a {
  is_signer = a.is_signer || signer;
  is_writable = a.is_writable || writable;
}

unfoldable pub find_or_add : List AccountInfo → PublicKey → Bool → Bool → List AccountInfo
find_or_add [] pk signer writable =
    record { key = pk; is_signer = signer; is_writable = writable } ∷ []
find_or_add (a ∷ accounts) pk signer writable =
    if equals a.key pk
    then upgrade a signer writable ∷ accounts
    else a ∷ find_or_add accounts pk signer writable

unfoldable pub keys : List AccountInfo → List PublicKey
keys [] = []
keys (a ∷ accounts) = a.key ∷ keys accounts

-- The loop that searches a key list from index `i` on; the index is cast to `uint8_t`.
unfoldable pub index_from : ℕ → List PublicKey → PublicKey → Option ℕ
index_from i [] pk = none
index_from i (k ∷ ks) pk =
    let rest = index_from (i + 1) ks pk in if equals k pk then some (u8 i) else rest

-- `uint8_t n; for (auto &a : accounts) if (test(a)) n++;`
unfoldable pub count_u8 : (AccountInfo → Bool) → ℕ → List AccountInfo → ℕ
count_u8 test n [] = n
count_u8 test n (a ∷ accounts) = count_u8 test (if test a then u8 (n + 1) else n) accounts
