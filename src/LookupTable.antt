-- ===== src/LookupTable.antt =====
-- src/solana/address_lookup_table.cpp. `parse` answers `none` for `false`, where `out` is left as
-- it was; `some` holds what it puts into `out`.
pub mod Laws
use solana_cpp_sdk.Base.{ℕ, zero, suc, ◌+◌, ◌-◌, ◌*◌, ◌/◌, ◌%◌, ◌^◌, List, [], ◌∷◌}
use solana_cpp_sdk.Base.{
  Option, none, some, length, get_or, take, drop, ltb, ◌==◌, not, if◌then◌else◌,
}
use solana_cpp_sdk.Base.{Result, ok, ◌>>=◌}
use solana_cpp_sdk.PublicKey.{PublicKey, from_vector}

pub record AddressLookupTableAccount : Type 0 where
  pub key : PublicKey
  pub addresses : List PublicKey

-- The little-endian `uint32_t` of the first four bytes; the fields of the disjunction share no bit.
unfoldable pub type_tag : List ℕ → ℕ
type_tag bytes =
    get_or bytes 0 0
    + get_or bytes 1 0 * 2 ^ 8
    + get_or bytes 2 0 * 2 ^ 16
    + get_or bytes 3 0 * 2 ^ 24

unfoldable pub address_start : List ℕ → ℕ
address_start bytes = if get_or bytes 21 0 == 1 then 22 + 32 else 22

-- `for (i = 0; i < numAddresses; ++i)`, with the rounds left and the bytes from the next entry on.
unfoldable pub read_addresses : ℕ → List ℕ → Result (List PublicKey)
read_addresses zero bytes = ok []
read_addresses (suc n) bytes = do
  k ← from_vector (take 32 bytes)
  ks ← read_addresses n (drop 32 bytes)
  ok (k ∷ ks)

-- The exception that `from_vector` can throw leaves `parse` as one.
unfoldable pub parse : PublicKey → List ℕ → Result (Option AddressLookupTableAccount)
parse account_key bytes =
    if ltb (length bytes) 22
    then ok none
    else if not (type_tag bytes == 1)
    then ok none
    else if ltb (length bytes) (address_start bytes)
    then ok none
    else (let remaining = length bytes - address_start bytes in
        if not (remaining % 32 == 0)
        then ok none
        else (read_addresses (remaining / 32) (drop (address_start bytes) bytes) >>= λ ks.
            ok (some (record { key = account_key; addresses = ks }))))
