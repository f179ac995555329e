-- ===== src/Programs/ComputeBudget.antt =====
-- src/solana/programs/compute_budget.cpp.
use solana_cpp_sdk.Base.{ℕ, [], ◌++◌, codes, Result, ok, ◌>>=◌}
use solana_cpp_sdk.Wire.{write_u8, write_u32, write_u64}
use solana_cpp_sdk.PublicKey.{PublicKey, from_base58}
use solana_cpp_sdk.Instruction.{Instruction}

unfoldable pub compute_budget_program_id : Result PublicKey
compute_budget_program_id = from_base58 (codes "ComputeBudget111111111111111111111111111111")

unfoldable pub set_compute_unit_limit : ℕ → Result Instruction
set_compute_unit_limit units = do
  program ← compute_budget_program_id
  ok (record { program_id = program; accounts = []; payload = write_u8 2 ++ write_u32 units })

unfoldable pub set_compute_unit_price : ℕ → Result Instruction
set_compute_unit_price micro_lamports = do
  program ← compute_budget_program_id
  ok (record {
    program_id = program;
    accounts = [];
    payload = write_u8 3 ++ write_u64 micro_lamports;
  })
