-- ===== src/Programs/System.antt =====
-- src/solana/programs/system_program.cpp. Its own writers have the text of include/solana/borsh.h.
use solana_cpp_sdk.Base.{ℕ, List, [], ◌∷◌, ◌++◌, Bool, true, false, codes, Result, ok, ◌>>=◌}
use solana_cpp_sdk.Wire.{write_u32, write_u64, write_string}
use solana_cpp_sdk.PublicKey.{PublicKey, from_base58, to_bytes}
use solana_cpp_sdk.Instruction.{AccountMeta, Instruction}

pub data SystemInstruction : Type 0 where
  create_account_tag assign_tag transfer_tag create_account_with_seed_tag : SystemInstruction
  advance_nonce_account_tag withdraw_nonce_account_tag : SystemInstruction
  initialize_nonce_account_tag authorize_nonce_account_tag allocate_tag : SystemInstruction
  allocate_with_seed_tag assign_with_seed_tag transfer_with_seed_tag : SystemInstruction

unfoldable pub tag : SystemInstruction → ℕ
tag create_account_tag = 0
tag assign_tag = 1
tag transfer_tag = 2
tag create_account_with_seed_tag = 3
tag advance_nonce_account_tag = 4
tag withdraw_nonce_account_tag = 5
tag initialize_nonce_account_tag = 6
tag authorize_nonce_account_tag = 7
tag allocate_tag = 8
tag allocate_with_seed_tag = 9
tag assign_with_seed_tag = 10
tag transfer_with_seed_tag = 11

abbrev pub meta : PublicKey → Bool → Bool → AccountMeta
meta k signer writable = record { pubkey = k; is_signer = signer; is_writable = writable }

unfoldable pub system_program_id : Result PublicKey
system_program_id = from_base58 (codes "11111111111111111111111111111111")

unfoldable pub recent_blockhashes_sysvar : Result PublicKey
recent_blockhashes_sysvar = from_base58 (codes "SysvarRecentB1telephones11111111111111111")

unfoldable pub rent_sysvar : Result PublicKey
rent_sysvar = from_base58 (codes "SysvarRent111111111111111111111111111111111")

-- `Instruction(sysProg(), accounts, data)`
unfoldable pub system_instruction : List AccountMeta → List ℕ → Result Instruction
system_instruction accounts payload = do
  program ← system_program_id
  ok (record { program_id = program; accounts = accounts; payload = payload })

unfoldable pub transfer : PublicKey → PublicKey → ℕ → Result Instruction
transfer from to lamports =
    system_instruction (meta from true true ∷ meta to false true ∷ [])
      (write_u32 (tag transfer_tag) ++ write_u64 lamports)

unfoldable pub create_account : PublicKey → PublicKey → ℕ → ℕ → PublicKey → Result Instruction
create_account from new_account lamports space program_id =
    system_instruction (meta from true true ∷ meta new_account true true ∷ []) (
      write_u32 (tag create_account_tag)
      ++ (write_u64 lamports ++ (write_u64 space ++ to_bytes program_id)))

unfoldable pub assign : PublicKey → PublicKey → Result Instruction
assign account program_id =
    system_instruction (meta account true true ∷ [])
      (write_u32 (tag assign_tag) ++ to_bytes program_id)

unfoldable pub allocate : PublicKey → ℕ → Result Instruction
allocate account space =
    system_instruction (meta account true true ∷ [])
      (write_u32 (tag allocate_tag) ++ write_u64 space)

unfoldable pub create_account_with_seed :
    PublicKey → PublicKey → PublicKey → List ℕ → ℕ → ℕ → PublicKey → Result Instruction
create_account_with_seed from new_account base seed lamports space program_id =
    system_instruction (meta from true true ∷ meta new_account false true ∷ []) (
      write_u32 (tag create_account_with_seed_tag)
      ++ (to_bytes base
          ++ (write_string seed
              ++ (write_u64 lamports ++ (write_u64 space ++ to_bytes program_id)))))

unfoldable pub transfer_with_seed :
    PublicKey → PublicKey → List ℕ → PublicKey → PublicKey → ℕ → Result Instruction
transfer_with_seed from from_base from_seed from_owner to lamports =
    system_instruction (meta from false true ∷ meta from_base true false ∷ meta to false true ∷ [])
      (write_u32 (tag transfer_with_seed_tag)
        ++ (write_u64 lamports ++ (write_string from_seed ++ to_bytes from_owner)))

unfoldable pub advance_nonce_account : PublicKey → PublicKey → Result Instruction
advance_nonce_account nonce authorized = do
  recent ← recent_blockhashes_sysvar
  system_instruction
      (meta nonce false true ∷ meta recent false false ∷ meta authorized true false ∷ [])
      (write_u32 (tag advance_nonce_account_tag))

unfoldable pub withdraw_nonce_account : PublicKey → PublicKey → PublicKey → ℕ → Result Instruction
withdraw_nonce_account nonce authorized to lamports = do
  recent ← recent_blockhashes_sysvar
  rent ← rent_sysvar
  system_instruction
      (meta nonce false true
        ∷ meta to false true
        ∷ meta recent false false
        ∷ meta rent false false
        ∷ meta authorized true false
        ∷ [])
      (write_u32 (tag withdraw_nonce_account_tag) ++ write_u64 lamports)

unfoldable pub initialize_nonce_account : PublicKey → PublicKey → Result Instruction
initialize_nonce_account nonce authorized = do
  recent ← recent_blockhashes_sysvar
  rent ← rent_sysvar
  system_instruction (meta nonce false true ∷ meta recent false false ∷ meta rent false false ∷ [])
      (write_u32 (tag initialize_nonce_account_tag) ++ to_bytes authorized)

unfoldable pub authorize_nonce_account : PublicKey → PublicKey → PublicKey → Result Instruction
authorize_nonce_account nonce authorized new_authorized =
    system_instruction (meta nonce false true ∷ meta authorized true false ∷ [])
      (write_u32 (tag authorize_nonce_account_tag) ++ to_bytes new_authorized)
