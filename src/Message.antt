-- ===== src/Message.antt =====
-- src/solana/message.cpp: the legacy message. The three vectors of `compile` are one list of
-- entries, since every push goes to all three; `findOrAdd`'s result is used by no call.
pub mod Table
pub mod Laws
pub mod Format
pub mod Unsorted
pub mod Sizes
pub mod Bytes
pub mod Sendable
use solana_cpp_sdk.Base.{
  ℕ, ◌+◌, List, [], ◌∷◌, ◌++◌, Bool, true, false, not, ◌&&◌, Option, none, some,
}
use solana_cpp_sdk.Base.{length, concat_map, u16, ◌==◌, Result, ok, err, ◌>>=◌, ◌>>◌, throw_if}
use solana_cpp_sdk.Base.{undefined_behaviour, invalid_blockhash_length}
use solana_cpp_sdk.Base58
use solana_cpp_sdk.Wire.{write_compact_u16}
use solana_cpp_sdk.PublicKey.{PublicKey, to_bytes}
use solana_cpp_sdk.Instruction.{AccountMeta, Instruction}
use solana_cpp_sdk.Accounts.{AccountInfo, find_or_add, keys, index_from, count_u8}

pub record MessageHeader : Type 0 where
  pub num_required_signatures : ℕ
  pub num_readonly_signed_accounts : ℕ
  pub num_readonly_unsigned_accounts : ℕ

pub record CompiledInstruction : Type 0 where
  pub program_id_index : ℕ
  pub account_indices : List ℕ
  pub payload : List ℕ

pub record Message : Type 0 where
  pub header : MessageHeader
  pub account_keys : List PublicKey
  pub recent_blockhash : List ℕ
  pub instructions : List CompiledInstruction

unfoldable pub register_metas : List AccountInfo → List AccountMeta → List AccountInfo
register_metas table [] = table
register_metas table (am ∷ metas) =
    register_metas (find_or_add table am.pubkey am.is_signer am.is_writable) metas

unfoldable pub register_instructions : List AccountInfo → List Instruction → List AccountInfo
register_instructions table [] = table
register_instructions table (instr ∷ instrs) =
    register_instructions
      (find_or_add (register_metas table instr.accounts) instr.program_id false false) instrs

-- The fee payer first, then all accounts of all instructions.
unfoldable pub register_all : List Instruction → PublicKey → List AccountInfo
register_all instrs fee_payer = register_instructions (find_or_add [] fee_payer true true) instrs

unfoldable pub header_of : List AccountInfo → MessageHeader
header_of table = record {
  num_required_signatures = count_u8 (λ a. a.is_signer) 0 table;
  num_readonly_signed_accounts = count_u8 (λ a. a.is_signer && not a.is_writable) 0 table;
  num_readonly_unsigned_accounts = count_u8 (λ a. not a.is_signer && not a.is_writable) 0 table;
}

-- An account that is not in the list is passed over.
unfoldable pub push_index : Option ℕ → List ℕ → List ℕ
push_index none indices = indices
push_index (some i) indices = i ∷ indices

unfoldable pub account_indices_of : List PublicKey → List AccountMeta → List ℕ
account_indices_of ks [] = []
account_indices_of ks (am ∷ metas) =
    push_index (index_from 0 ks am.pubkey) (account_indices_of ks metas)

-- `programIdIndex` has no initial value: without a hit it would be read uninitialised.
unfoldable pub program_index_of : Option ℕ → Result ℕ
program_index_of none = err undefined_behaviour
program_index_of (some i) = ok i

unfoldable pub compile_instruction : List PublicKey → Instruction → Result CompiledInstruction
compile_instruction ks instr = do
  program ← program_index_of (index_from 0 ks instr.program_id)
  ok (record {
    program_id_index = program;
    account_indices = account_indices_of ks instr.accounts;
    payload = instr.payload;
  })

unfoldable pub compile_instructions :
    List PublicKey → List Instruction → Result (List CompiledInstruction)
compile_instructions ks [] = ok []
compile_instructions ks (instr ∷ instrs) = do
  ci ← compile_instruction ks instr
  cis ← compile_instructions ks instrs
  ok (ci ∷ cis)

unfoldable pub compile : List Instruction → PublicKey → List ℕ → Result Message
compile instrs fee_payer recent_blockhash = do
  let table = register_all instrs fee_payer
  compiled ← compile_instructions (keys table) instrs
  ok (record {
    header = header_of table;
    account_keys = keys table;
    recent_blockhash = recent_blockhash;
    instructions = compiled;
  })

unfoldable pub serialize_header : MessageHeader → List ℕ
serialize_header h =
    h.num_required_signatures ∷ h.num_readonly_signed_accounts ∷ h.num_readonly_unsigned_accounts
    ∷ []

unfoldable pub serialize_keys : List PublicKey → List ℕ
serialize_keys ks = write_compact_u16 (u16 (length ks)) ++ concat_map to_bytes ks

unfoldable pub serialize_instruction : CompiledInstruction → List ℕ
serialize_instruction ci =
    ci.program_id_index
    ∷ (write_compact_u16 (u16 (length ci.account_indices))
        ++ (ci.account_indices ++ (write_compact_u16 (u16 (length ci.payload)) ++ ci.payload)))

unfoldable pub serialize_instructions : List CompiledInstruction → List ℕ
serialize_instructions cis =
    write_compact_u16 (u16 (length cis)) ++ concat_map serialize_instruction cis

unfoldable pub serialize : Message → Result (List ℕ)
serialize msg = do
  blockhash ← Base58.decode msg.recent_blockhash
  throw_if (not (length blockhash == 32)) invalid_blockhash_length
  ok (
      serialize_header msg.header
      ++ (serialize_keys msg.account_keys
          ++ (blockhash ++ serialize_instructions msg.instructions)))
