-- ===== src/Demos/TokenInstructions.antt =====
-- examples/spl_token_transfer.cpp: the instructions of the program.
use solana_cpp_sdk.Base.{◌≡◌, ◌<◌, arith, true, false, Bool, List, [], ◌∷◌, ◌++◌}
use solana_cpp_sdk.Base.{ok, All}
use solana_cpp_sdk.PublicKey.{PublicKey, IsPublicKey}
use solana_cpp_sdk.Instruction.{Instruction}
use solana_cpp_sdk.Message.Sizes.{IsInstruction, places}
use solana_cpp_sdk.Programs.ComputeBudget.{compute_budget_program_id}
use solana_cpp_sdk.Programs.SplToken.{token_program_id, associated_token_program_id}
use solana_cpp_sdk.Programs.System.{rent_sysvar}
use solana_cpp_sdk.Programs.Shapes.{
  limit_of, price_of, checked_of, created_of, budget_lem, transfer_checked_lem,
  create_associated_token_account_lem,
}
use solana_cpp_sdk.Rpc.Methods.{}
use solana_cpp_sdk.Demos.{}
use solana_cpp_sdk.Demos.Constants.{}
use solana_cpp_sdk.Demos.SplTokenTransfer.{}

-- The keys of the programs that the instructions name.
pub record ProgramKeys : Type 0 where
  pub budget : PublicKey
  pub token : PublicKey
  pub associated : PublicKey
  pub rent : PublicKey
  pub is_budget : compute_budget_program_id ≡ ok budget
  pub is_token : token_program_id ≡ ok token
  pub is_associated : associated_token_program_id ≡ ok associated
  pub is_rent : rent_sysvar ≡ ok rent

module _ (programs : ProgramKeys) (sender : PublicKey)
    (sender_ata recipient_ata wallet mint : PublicKey) where
  abbrev created_unless : Bool → List Instruction
  created_unless true = []
  created_unless false =
      created_of programs.associated programs.token programs.rent sender recipient_ata wallet mint
      ∷ []

  -- The instructions of the program; the third creates the recipient's account if it is missing.
  abbrev pub token_instructions : Bool → List Instruction
  token_instructions exists =
      limit_of programs.budget 100000
      ∷ price_of programs.budget 1000
      ∷ (created_unless exists
          ++ (checked_of programs.token sender_ata mint recipient_ata sender 1500000 6 ∷ []))

  module _ (sender_key : IsPublicKey sender) (source : IsPublicKey sender_ata)
      (dest : IsPublicKey recipient_ata) (owner : IsPublicKey wallet)
      (coin : IsPublicKey mint) where
    -- They can be compiled into a message.
    pub instructions_shape :
        (exists : Bool)
        → All IsInstruction (token_instructions exists) × (places (token_instructions exists) < 255)
    instructions_shape exists =
        let (_, _, limit, price) = budget_lem programs.budget 100000 1000 programs.is_budget in
        let (_, checked) =
          transfer_checked_lem programs.token sender_ata mint recipient_ata sender 1500000 6
            programs.is_token source coin dest sender_key (omega arith) in
        let (_, created) =
          create_associated_token_account_lem programs.associated programs.token programs.rent
            sender recipient_ata wallet mint programs.is_associated programs.is_token
            programs.is_rent sender_key dest owner coin in
        elim exists
          as (λ b.
            All IsInstruction (token_instructions b) × (places (token_instructions b) < 255)) [
              | true ↦ ((limit, (price, (checked, tt))), omega arith)
              | false ↦ ((limit, (price, (created, (checked, tt)))), omega arith)
            ]
