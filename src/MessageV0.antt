-- ===== src/MessageV0.antt =====
-- src/solana/message_v0.cpp: the versioned message with address lookup tables.
pub mod Groups
pub mod Order
pub mod Laws
pub mod Format
pub mod Buckets
pub mod Resolve
pub mod Total
pub mod Sides
pub mod Bounded
pub mod Sendable
use solana_cpp_sdk.Base.{ℕ, zero, suc, ◌+◌, List, [], ◌∷◌, ◌++◌, Bool, true, false, not, ◌&&◌, ◌||◌}
use solana_cpp_sdk.Base.{
  Option, none, some, length, concat_map, u16, u8, ◌==◌, if◌then◌else◌, get_elem?,
}
use solana_cpp_sdk.Base.{Result, ok, err, ◌>>=◌, ◌>>◌, throw_if, account_not_found, replicate}
use solana_cpp_sdk.Base.{undefined_behaviour, invalid_blockhash_length}
use solana_cpp_sdk.Base58
use solana_cpp_sdk.Wire.{write_compact_u16}
use solana_cpp_sdk.PublicKey.{PublicKey, equals, to_bytes}
use solana_cpp_sdk.Instruction.{AccountMeta, Instruction}
use solana_cpp_sdk.LookupTable.{AddressLookupTableAccount}
use solana_cpp_sdk.Accounts.{AccountInfo, find_or_add, keys, index_from, count_u8}
use solana_cpp_sdk.Lookups.{TableBucket, Pass, first_pass, is_empty}
use solana_cpp_sdk.Message.{MessageHeader, CompiledInstruction, serialize_header, serialize_keys}
use solana_cpp_sdk.Message.{serialize_instructions}

pub record MessageAddressTableLookup : Type 0 where
  pub account_key : PublicKey
  pub writable_indexes : List ℕ
  pub readonly_indexes : List ℕ

pub record MessageV0 : Type 0 where
  pub header : MessageHeader
  pub static_account_keys : List PublicKey
  pub recent_blockhash : List ℕ
  pub instructions : List CompiledInstruction
  pub address_table_lookups : List MessageAddressTableLookup

-- `for (auto &a : staticAccounts) if (test(a)) ordered.push_back(a);`
unfoldable pub select : (AccountInfo → Bool) → List AccountInfo → List AccountInfo
select test [] = []
select test (a ∷ accounts) = if test a then a ∷ select test accounts else select test accounts

unfoldable pub sort_accounts : List AccountInfo → List AccountInfo
sort_accounts accounts =
    select (λ a. a.is_signer && a.is_writable) accounts
    ++ (select (λ a. a.is_signer && not a.is_writable) accounts
        ++ (select (λ a. not a.is_signer && a.is_writable) accounts
            ++ select (λ a. not a.is_signer && not a.is_writable) accounts))

-- `++n` on a `uint8_t`, for each entry that passes both tests of the loop.
unfoldable pub header_of : List AccountInfo → MessageHeader
header_of ordered = record {
  num_required_signatures = count_u8 (λ a. a.is_signer) 0 ordered;
  num_readonly_signed_accounts = count_u8 (λ a. a.is_signer && not a.is_writable) 0 ordered;
  num_readonly_unsigned_accounts = count_u8 (λ a. not a.is_signer && not a.is_writable) 0 ordered;
}

unfoldable pub address_at : Option PublicKey → Result PublicKey
address_at none = err undefined_behaviour
address_at (some k) = ok k

-- `lookupTables[ti].addresses[idx]` for each index of a bucket.
unfoldable pub addresses_at : List PublicKey → List ℕ → Result (List PublicKey)
addresses_at addresses [] = ok []
addresses_at addresses (idx ∷ idxs) = do
  k ← address_at (get_elem? addresses idx)
  ks ← addresses_at addresses idxs
  ok (k ∷ ks)

-- The two loops over the tables, one for the indices that `side` selects.
unfoldable pub lookup_keys :
    (TableBucket → List ℕ)
    → List AddressLookupTableAccount
    → List TableBucket
    → Result (List PublicKey)
lookup_keys side [] buckets = ok []
lookup_keys side (tbl ∷ tables) [] = ok []
lookup_keys side (tbl ∷ tables) (b ∷ buckets) = do
  ks ← addresses_at tbl.addresses (side b)
  rest ← lookup_keys side tables buckets
  ok (ks ++ rest)

unfoldable pub resolve_index : List PublicKey → PublicKey → Result ℕ
resolve_index virtual pk = elim (index_from 0 virtual pk) [
  | none ↦ err account_not_found
  | some i ↦ ok i
]

unfoldable pub resolve_metas : List PublicKey → List AccountMeta → Result (List ℕ)
resolve_metas virtual [] = ok []
resolve_metas virtual (am ∷ metas) = do
  i ← resolve_index virtual am.pubkey
  is ← resolve_metas virtual metas
  ok (i ∷ is)

unfoldable pub resolve_instructions :
    List PublicKey → List Instruction → Result (List CompiledInstruction)
resolve_instructions virtual [] = ok []
resolve_instructions virtual (instr ∷ instrs) = do
  program ← resolve_index virtual instr.program_id
  accounts ← resolve_metas virtual instr.accounts
  cis ← resolve_instructions virtual instrs
  ok (
      record { program_id_index = program; account_indices = accounts; payload = instr.payload }
      ∷ cis)

-- The lookup section: tables of which no address is used are passed over.
unfoldable pub lookup_section :
    List AddressLookupTableAccount → List TableBucket → List MessageAddressTableLookup
lookup_section [] buckets = []
lookup_section (tbl ∷ tables) [] = []
lookup_section (tbl ∷ tables) (b ∷ buckets) =
    let rest = lookup_section tables buckets in
    if is_empty b.writable_idx && is_empty b.readonly_idx
    then rest
    else record {
      account_key = tbl.key;
      writable_indexes = b.writable_idx;
      readonly_indexes = b.readonly_idx;
    }
      ∷ rest

unfoldable pub compile :
    List Instruction → PublicKey → List ℕ → List AddressLookupTableAccount → Result MessageV0
compile instrs fee_payer recent_blockhash tables = do
  let p = first_pass tables instrs fee_payer
  let ordered = sort_accounts p.static_accounts
  writable ← lookup_keys (λ b. b.writable_idx) tables p.table_buckets
  readonly ← lookup_keys (λ b. b.readonly_idx) tables p.table_buckets
  compiled ← resolve_instructions (keys ordered ++ (writable ++ readonly)) instrs
  ok (record {
    header = header_of ordered;
    static_account_keys = keys ordered;
    recent_blockhash = recent_blockhash;
    instructions = compiled;
    address_table_lookups = lookup_section tables p.table_buckets;
  })

unfoldable pub serialize_lookup : MessageAddressTableLookup → List ℕ
serialize_lookup alt =
    to_bytes alt.account_key
    ++ (write_compact_u16 (u16 (length alt.writable_indexes))
        ++ (alt.writable_indexes
            ++ (write_compact_u16 (u16 (length alt.readonly_indexes)) ++ alt.readonly_indexes)))

unfoldable pub serialize_lookups : List MessageAddressTableLookup → List ℕ
serialize_lookups alts = write_compact_u16 (u16 (length alts)) ++ concat_map serialize_lookup alts

unfoldable pub serialize : MessageV0 → Result (List ℕ)
serialize msg = do
  blockhash ← Base58.decode msg.recent_blockhash
  throw_if (not (length blockhash == 32)) invalid_blockhash_length
  ok (
      serialize_header msg.header
      ++ (serialize_keys msg.static_account_keys
          ++ (blockhash
              ++ (serialize_instructions msg.instructions
                  ++ serialize_lookups msg.address_table_lookups))))
