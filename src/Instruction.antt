-- ===== src/Instruction.antt =====
-- include/solana/instruction.h.
use solana_cpp_sdk.Base.{ℕ, Bool, List}
use solana_cpp_sdk.PublicKey.{PublicKey}

pub record AccountMeta : Type 0 where
  pub pubkey : PublicKey
  pub is_signer : Bool
  pub is_writable : Bool

-- `payload` is the source's `data`.
pub record Instruction : Type 0 where
  pub program_id : PublicKey
  pub accounts : List AccountMeta
  pub payload : List ℕ
