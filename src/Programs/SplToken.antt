-- ===== src/Programs/SplToken.antt =====
-- src/solana/programs/spl_token.cpp.
use solana_cpp_sdk.Base.{ℕ, List, [], ◌∷◌, ◌++◌, true, false, codes, Result, ok, ◌>>=◌}
use solana_cpp_sdk.Wire.{write_u8, write_u64}
use solana_cpp_sdk.Sodium.{Sodium}
use solana_cpp_sdk.PublicKey.{PublicKey, from_base58, to_bytes, find_program_address}
use solana_cpp_sdk.Instruction.{AccountMeta, Instruction}
use solana_cpp_sdk.Programs.System.{meta, system_program_id, rent_sysvar}

unfoldable pub token_program_id : Result PublicKey
token_program_id = from_base58 (codes "TokenkegQfeZyiNwAJbNbGKPFXCWuBvf9Ss623VQ5DA")

unfoldable pub associated_token_program_id : Result PublicKey
associated_token_program_id = from_base58 (codes "ATokenGPvbdGVxr1b2hvZbsiqW5xWH25efTNsLJe1bUs")

unfoldable pub find_associated_token_address :
    Sodium → PublicKey → PublicKey → Result (PublicKey × ℕ)
find_associated_token_address sodium wallet mint = do
  token ← token_program_id
  associated ← associated_token_program_id
  find_program_address sodium (to_bytes wallet ∷ to_bytes token ∷ to_bytes mint ∷ []) associated

-- `Instruction(tokenProgramId(), accounts, data)`
unfoldable pub token_instruction : List AccountMeta → List ℕ → Result Instruction
token_instruction accounts payload = do
  program ← token_program_id
  ok (record { program_id = program; accounts = accounts; payload = payload })

unfoldable pub transfer : PublicKey → PublicKey → PublicKey → ℕ → Result Instruction
transfer source dest authority amount =
    token_instruction
      (meta source false true ∷ meta dest false true ∷ meta authority true false ∷ [])
      (write_u8 3 ++ write_u64 amount)

unfoldable pub transfer_checked :
    PublicKey → PublicKey → PublicKey → PublicKey → ℕ → ℕ → Result Instruction
transfer_checked source mint dest authority amount decimals =
    token_instruction
      (meta source false true
        ∷ meta mint false false
        ∷ meta dest false true
        ∷ meta authority true false
        ∷ [])
      (write_u8 12 ++ (write_u64 amount ++ write_u8 decimals))

unfoldable pub mint_to : PublicKey → PublicKey → PublicKey → ℕ → Result Instruction
mint_to mint dest mint_authority amount =
    token_instruction
      (meta mint false true ∷ meta dest false true ∷ meta mint_authority true false ∷ [])
      (write_u8 7 ++ write_u64 amount)

unfoldable pub burn : PublicKey → PublicKey → PublicKey → ℕ → Result Instruction
burn account mint authority amount =
    token_instruction
      (meta account false true ∷ meta mint false true ∷ meta authority true false ∷ [])
      (write_u8 8 ++ write_u64 amount)

unfoldable pub close_account : PublicKey → PublicKey → PublicKey → Result Instruction
close_account account destination authority =
    token_instruction
      (meta account false true ∷ meta destination false true ∷ meta authority true false ∷ [])
      (write_u8 9)

unfoldable pub create_associated_token_account :
    PublicKey → PublicKey → PublicKey → PublicKey → Result Instruction
create_associated_token_account payer ata wallet mint = do
  system ← system_program_id
  rent ← rent_sysvar
  token ← token_program_id
  associated ← associated_token_program_id
  ok (record {
    program_id = associated;
    accounts =
        meta payer true true
        ∷ meta ata false true
        ∷ meta wallet false false
        ∷ meta mint false false
        ∷ meta system false false
        ∷ meta token false false
        ∷ meta rent false false
        ∷ [];
    payload = [];
  })
