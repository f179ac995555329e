-- ===== src/Lookups.antt =====
-- The first pass of `MessageV0::compile` of src/solana/message_v0.cpp: which accounts stand in the
-- message itself, and which are referred to through an address lookup table.
pub mod Laws
pub mod Tables
pub mod Invariant
pub mod Registers
pub mod Known
use solana_cpp_sdk.Base.{
  ℕ, zero, suc, ◌+◌, List, [], ◌∷◌, ◌++◌, Bool, true, false, ◌&&◌, ◌||◌, length,
}
use solana_cpp_sdk.Base.{Option, none, some, u8, ◌==◌, if◌then◌else◌, replicate}
use solana_cpp_sdk.PublicKey.{PublicKey, equals}
use solana_cpp_sdk.Instruction.{AccountMeta, Instruction}
use solana_cpp_sdk.LookupTable.{AddressLookupTableAccount}
use solana_cpp_sdk.Accounts.{AccountInfo, find_or_add}

pub record LookupRef : Type 0 where
  pub table_idx : ℕ
  pub addr_idx : ℕ
  pub is_writable : Bool

pub record TableBucket : Type 0 where
  pub writable_idx : List ℕ
  pub readonly_idx : List ℕ

-- The variables of the first pass; a `LookupKey` has the fields of a `LookupRef`.
pub record Pass : Type 0 where
  pub static_accounts : List AccountInfo
  pub registered_lookups : List LookupRef
  pub table_buckets : List TableBucket

-- The inner loop of `findInLookup`, from index `ai` on.
unfoldable pub find_address : ℕ → List PublicKey → PublicKey → Option ℕ
find_address ai [] pk = none
find_address ai (a ∷ addresses) pk =
    let rest = find_address (ai + 1) addresses pk in if equals a pk then some (u8 ai) else rest

-- `findInLookup`, from table `ti` on; `none` is the table index -1.
unfoldable pub find_in_lookup :
    ℕ → List AddressLookupTableAccount → PublicKey → Bool → Option LookupRef
find_in_lookup ti [] pk writable = none
find_in_lookup ti (tbl ∷ tables) pk writable = elim (find_address 0 tbl.addresses pk) [
  | some ai ↦ some (record { table_idx = ti; addr_idx = ai; is_writable = writable })
  | none ↦ find_in_lookup (ti + 1) tables pk writable
]

-- The loop of `findOrAddLookup`: the registered pair, if it is there, with its flag upgraded.
unfoldable pub upgrade_lookup : List LookupRef → ℕ → ℕ → Bool → Option (List LookupRef)
upgrade_lookup [] ti ai writable = none
upgrade_lookup (lk ∷ lks) ti ai writable =
    if (lk.table_idx == ti) && (lk.addr_idx == ai)
    then some (record lk { is_writable = lk.is_writable || writable } ∷ lks)
    else elim (upgrade_lookup lks ti ai writable) [ none ↦ none | some rest ↦ some (lk ∷ rest) ]

unfoldable pub push_bucket : TableBucket → ℕ → Bool → TableBucket
push_bucket b ai true = record b { writable_idx = b.writable_idx ++ (ai ∷ []) }
push_bucket b ai false = record b { readonly_idx = b.readonly_idx ++ (ai ∷ []) }

-- `tableBuckets[ti]` is one of the table's buckets, since there are as many as tables.
unfoldable pub push_at : List TableBucket → ℕ → ℕ → Bool → List TableBucket
push_at [] ti ai writable = []
push_at (b ∷ bs) zero ai writable = push_bucket b ai writable ∷ bs
push_at (b ∷ bs) (suc ti) ai writable = b ∷ push_at bs ti ai writable

unfoldable pub find_or_add_lookup : Pass → ℕ → ℕ → Bool → Pass
find_or_add_lookup p ti ai writable = elim (upgrade_lookup p.registered_lookups ti ai writable) [
  | some lks ↦ record p { registered_lookups = lks }
  | none ↦ record p {
    registered_lookups =
        p.registered_lookups
        ++ (record { table_idx = ti; addr_idx = ai; is_writable = writable } ∷ []);
    table_buckets = push_at p.table_buckets ti ai writable;
  }
]

unfoldable pub add_static : Pass → PublicKey → Bool → Bool → Pass
add_static p pk signer writable = record p {
  static_accounts = find_or_add p.static_accounts pk signer writable;
}

unfoldable pub is_empty {ℓ} : {A : Type ℓ} → List A → Bool
is_empty [] = true
is_empty (x ∷ xs) = false

module _ (tables : List AddressLookupTableAccount) where
  unfoldable pub process_meta : Pass → AccountMeta → Pass
  process_meta p am =
      if am.is_signer || is_empty tables
      then add_static p am.pubkey am.is_signer am.is_writable
      else elim (find_in_lookup 0 tables am.pubkey am.is_writable) [
        | some ref ↦ find_or_add_lookup p ref.table_idx ref.addr_idx am.is_writable
        | none ↦ add_static p am.pubkey am.is_signer am.is_writable
      ]

  unfoldable pub process_metas : Pass → List AccountMeta → Pass
  process_metas p [] = p
  process_metas p (am ∷ metas) = process_metas (process_meta p am) metas

  unfoldable pub process_instructions : Pass → List Instruction → Pass
  process_instructions p [] = p
  process_instructions p (instr ∷ instrs) =
      process_instructions
        (process_metas (add_static p instr.program_id false false) instr.accounts) instrs

  unfoldable pub first_pass : List Instruction → PublicKey → Pass
  first_pass instrs fee_payer =
      process_instructions
        (record {
          static_accounts = find_or_add [] fee_payer true true;
          registered_lookups = [];
          table_buckets =
              replicate (length tables) (record { writable_idx = []; readonly_idx = [] });
        })
        instrs
