-- ===== src/Programs/Payloads.antt =====
-- The payloads of the token and compute budget builders, read as those programs read them.
use solana_cpp_sdk.Base.{
  ℕ, ◌^◌, ◌<◌, ◌≡◌, refl, arith, ap, List, [], ◌∷◌, ◌++◌, Option, none, some, ◌==◌,
}
use solana_cpp_sdk.Base.{if◌then◌else◌, length, take, get_or, Result, ok, ◌>>=◌, true, false}
use solana_cpp_sdk.Wire.{write_u8, write_u32, write_u64, write_u64_rounds}
use solana_cpp_sdk.Wire.Spec.{le_value}
use solana_cpp_sdk.PublicKey.{PublicKey}
use solana_cpp_sdk.Instruction.{AccountMeta, Instruction}
use solana_cpp_sdk.Programs.Keys.{token_program_id-IsKey, compute_budget_program_id-IsKey}
use solana_cpp_sdk.Programs.System.{meta}
use solana_cpp_sdk.Programs.SplToken
use solana_cpp_sdk.Programs.SplToken.{token_program_id, token_instruction}
use solana_cpp_sdk.Programs.ComputeBudget.{compute_budget_program_id, set_compute_unit_limit}
use solana_cpp_sdk.Programs.ComputeBudget.{set_compute_unit_price}

-- One byte says which instruction it is.
pub data TokenData : Type 0 where
  transfer_data mint_to_data burn_data : ℕ → TokenData
  transfer_checked_data : ℕ → ℕ → TokenData
  close_account_data : TokenData

read_amount : (ℕ → TokenData) → List ℕ → Option TokenData
read_amount f fields = if length fields == 8 then some (f (le_value fields)) else none

pub read_token : List ℕ → Option TokenData
read_token [] = none
read_token (t ∷ fields) =
    if t == 3
    then read_amount transfer_data fields
    else if t == 7
    then read_amount mint_to_data fields
    else if t == 8
    then read_amount burn_data fields
    else if t == 9
    then (if length fields == 0 then some close_account_data else none)
    else if t == 12
    then (if length fields == 9
        then some (transfer_checked_data (le_value (take 8 fields)) (get_or fields 8 0))
        else none)
    else none

pub data BudgetData : Type 0 where
  unit_limit unit_price : ℕ → BudgetData

pub read_budget : List ℕ → Option BudgetData
read_budget [] = none
read_budget (t ∷ fields) =
    if t == 2
    then (if length fields == 4 then some (unit_limit (le_value fields)) else none)
    else if t == 3
    then (if length fields == 8 then some (unit_price (le_value fields)) else none)
    else none

-- The builder answers with an instruction of the program, with these accounts, whose payload reads
-- as `d`.
abbrev pub Builds :
    {D : Type 0}
    → (List ℕ → Option D)
    → Result PublicKey
    → Result Instruction
    → List AccountMeta
    → D
    → Type 0
Builds read program r accounts d =
    (ix : Instruction) × (r ≡ ok ix)
    × (program ≡ ok ix.program_id)
    × (ix.accounts ≡ accounts)
    × (read ix.payload ≡ some d)

token_instruction_lem :
    (accounts : List AccountMeta) (payload : List ℕ) (d : TokenData)
    → read_token payload ≡ some d
    → Builds read_token token_program_id (token_instruction accounts payload) accounts d
unfolding token_instruction
token_instruction_lem accounts payload d e =
    let (k, is, _) = token_program_id-IsKey in
    (record { program_id = k; accounts = accounts; payload = payload }, rw (is, ◌>>=◌), is, refl, e)

checked_eq : (a a' d : ℕ) → a ≡ a' → transfer_checked_data a d ≡ transfer_checked_data a' d
checked_eq a a' d p = ap (λ x. transfer_checked_data x d) p

-- The builders of the token program name that program, pass the accounts with their flags, and
-- write payloads that read as the amounts given; amounts are below 2 ^ 64.
pub token_builders :
    (a b c d : PublicKey) (amount decimals : ℕ)
    → amount < 2 ^ 64
    → Builds read_token token_program_id
        (SplToken.transfer a b c amount)
        (meta a false true ∷ meta b false true ∷ meta c true false ∷ [])
        (transfer_data amount)
      × Builds read_token token_program_id
          (SplToken.transfer_checked a d b c amount decimals)
          (meta a false true ∷ meta d false false ∷ meta b false true ∷ meta c true false ∷ [])
          (transfer_checked_data amount decimals)
      × Builds read_token token_program_id
          (SplToken.mint_to a b c amount)
          (meta a false true ∷ meta b false true ∷ meta c true false ∷ [])
          (mint_to_data amount)
      × Builds read_token token_program_id
          (SplToken.burn a b c amount)
          (meta a false true ∷ meta b false true ∷ meta c true false ∷ [])
          (burn_data amount)
      × Builds read_token token_program_id
          (SplToken.close_account a b c)
          (meta a false true ∷ meta b false true ∷ meta c true false ∷ [])
          close_account_data
unfolding SplToken.transfer SplToken.transfer_checked SplToken.mint_to SplToken.burn
    SplToken.close_account read_token read_amount write_u8 write_u64 write_u64_rounds
token_builders a b c d amount decimals h = (
  token_instruction_lem _ _ _ (ap some (ap transfer_data (omega arith))),
  token_instruction_lem _ _ _ (ap some (checked_eq _ amount decimals (omega arith))),
  token_instruction_lem _ _ _ (ap some (ap mint_to_data (omega arith))),
  token_instruction_lem _ _ _ (ap some (ap burn_data (omega arith))),
  token_instruction_lem _ _ _ refl,
)

-- The builders of the compute budget program name that program, pass no accounts, and write payloads
-- that read as the limit, below 2 ^ 32, and the price, below 2 ^ 64.
pub budget_builders :
    (units price : ℕ)
    → units < 2 ^ 32
    → price < 2 ^ 64
    → Builds read_budget compute_budget_program_id
        (set_compute_unit_limit units)
        []
        (unit_limit units)
      × Builds read_budget compute_budget_program_id
          (set_compute_unit_price price)
          []
          (unit_price price)
unfolding set_compute_unit_limit set_compute_unit_price read_budget write_u8 write_u32 write_u64
    write_u64_rounds
budget_builders units price hu hp =
    let (k, is, _) = compute_budget_program_id-IsKey in
    (
      (
        record { program_id = k; accounts = []; payload = write_u8 2 ++ write_u32 units },
        rw (is, ◌>>=◌),
        is,
        refl,
        ap some (ap unit_limit (omega arith)),
      ),
      (
        record { program_id = k; accounts = []; payload = write_u8 3 ++ write_u64 price },
        rw (is, ◌>>=◌),
        is,
        refl,
        ap some (ap unit_price (omega arith)),
      ),
    )
