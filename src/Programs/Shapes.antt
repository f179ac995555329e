-- ===== src/Programs/Shapes.antt =====
-- The instructions of the builders as parts of a message: keys of 32 bytes and payloads of bytes.
use solana_cpp_sdk.Base.{
  ℕ, zero, suc, ◌+◌, ◌≡◌, refl, arith, ◌<◌, [], ◌∷◌, ◌++◌, true, false, ok, ◌>>=◌,
}
use solana_cpp_sdk.Base.{All, All-append, All-replicate, IsByte}
use solana_cpp_sdk.Wire.{write_u8, write_u32, write_u64, write_u64_rounds}
use solana_cpp_sdk.PublicKey.{PublicKey, IsPublicKey, default_key}
use solana_cpp_sdk.PublicKey.Texts.{from_base58-IsPublicKey}
use solana_cpp_sdk.Instruction.{Instruction}
use solana_cpp_sdk.Message.Sizes.{IsInstruction}
use solana_cpp_sdk.Programs.Keys.{system_program_id-zero}
use solana_cpp_sdk.Programs.ComputeBudget.{
  compute_budget_program_id, set_compute_unit_limit, set_compute_unit_price,
}
use solana_cpp_sdk.Programs.SplToken
use solana_cpp_sdk.Programs.SplToken.{
  token_program_id, associated_token_program_id, token_instruction,
}
use solana_cpp_sdk.Programs.System
use solana_cpp_sdk.Programs.System.{meta, system_instruction, tag, transfer_tag, rent_sysvar}

write_u32-IsByte : (v : ℕ) → All IsByte (write_u32 v)
unfolding write_u32
write_u32-IsByte v = (omega arith, (omega arith, (omega arith, (omega arith, tt))))

write_u64_rounds-IsByte : (rounds i v : ℕ) → All IsByte (write_u64_rounds rounds i v)
unfolding write_u64_rounds
write_u64_rounds-IsByte zero i v = tt
write_u64_rounds-IsByte (suc rounds) i v = (omega arith, write_u64_rounds-IsByte rounds (i + 1) v)

write_u64-IsByte : (v : ℕ) → All IsByte (write_u64 v)
unfolding write_u64
write_u64-IsByte v = write_u64_rounds-IsByte 8 0 v

default_key-IsPublicKey : IsPublicKey default_key
unfolding default_key
default_key-IsPublicKey = (refl, All-replicate IsByte 32 0 (omega arith))

-- What the builder `transfer` of the system program makes.
abbrev pub transfer_of : PublicKey → PublicKey → ℕ → Instruction
transfer_of from to lamports = record {
  program_id = default_key;
  accounts = meta from true true ∷ meta to false true ∷ [];
  payload = write_u32 (tag transfer_tag) ++ write_u64 lamports;
}

pub transfer_lem :
    (from to : PublicKey) (lamports : ℕ)
    → IsPublicKey from
    → IsPublicKey to
    → (System.transfer from to lamports ≡ ok (transfer_of from to lamports))
      × IsInstruction (transfer_of from to lamports)
unfolding System.transfer system_instruction
transfer_lem from to lamports f t = (
  rw (system_program_id-zero, ◌>>=◌),
  (
    default_key-IsPublicKey,
    (
      (f, (t, tt)),
      (
        All-append IsByte _ _ (write_u32-IsByte (tag transfer_tag)) (write_u64-IsByte lamports),
        unfold write_u32 write_u64 write_u64_rounds in omega arith,
      ),
    ),
  ),
)

-- The keys of the programs.
module _ (k : PublicKey) where
  compute_budget-IsPublicKey : compute_budget_program_id ≡ ok k → IsPublicKey k
  unfolding compute_budget_program_id
  compute_budget-IsPublicKey e = from_base58-IsPublicKey _ k e

  token-IsPublicKey : token_program_id ≡ ok k → IsPublicKey k
  unfolding token_program_id
  token-IsPublicKey e = from_base58-IsPublicKey _ k e

  associated_token-IsPublicKey : associated_token_program_id ≡ ok k → IsPublicKey k
  unfolding associated_token_program_id
  associated_token-IsPublicKey e = from_base58-IsPublicKey _ k e

  rent-IsPublicKey : rent_sysvar ≡ ok k → IsPublicKey k
  unfolding rent_sysvar
  rent-IsPublicKey e = from_base58-IsPublicKey _ k e

-- What the compute budget builders make, with that program's key.
abbrev pub limit_of : PublicKey → ℕ → Instruction
limit_of program units = record {
  program_id = program;
  accounts = [];
  payload = write_u8 2 ++ write_u32 units;
}

abbrev pub price_of : PublicKey → ℕ → Instruction
price_of program micro_lamports = record {
  program_id = program;
  accounts = [];
  payload = write_u8 3 ++ write_u64 micro_lamports;
}

pub budget_lem :
    (program : PublicKey) (units micro_lamports : ℕ)
    → compute_budget_program_id ≡ ok program
    → (set_compute_unit_limit units ≡ ok (limit_of program units))
      × (set_compute_unit_price micro_lamports ≡ ok (price_of program micro_lamports))
      × IsInstruction (limit_of program units)
      × IsInstruction (price_of program micro_lamports)
unfolding set_compute_unit_limit set_compute_unit_price write_u8
budget_lem program units micro_lamports e =
    let key = compute_budget-IsPublicKey program e in
    (
      rw (e, ◌>>=◌),
      rw (e, ◌>>=◌),
      (key, (tt, ((omega arith, write_u32-IsByte units), unfold write_u32 in omega arith))),
      (
        key,
        (
          tt,
          (
            (omega arith, write_u64-IsByte micro_lamports),
            unfold write_u64 write_u64_rounds in omega arith,
          ),
        ),
      ),
    )

-- What the builder `transferChecked` of the token program makes.
abbrev pub checked_of :
    PublicKey → PublicKey → PublicKey → PublicKey → PublicKey → ℕ → ℕ → Instruction
checked_of program source mint dest authority amount decimals = record {
  program_id = program;
  accounts =
      meta source false true
      ∷ meta mint false false
      ∷ meta dest false true
      ∷ meta authority true false
      ∷ [];
  payload = write_u8 12 ++ (write_u64 amount ++ write_u8 decimals);
}

pub transfer_checked_lem :
    (program source mint dest authority : PublicKey) (amount decimals : ℕ)
    → token_program_id ≡ ok program
    → IsPublicKey source
    → IsPublicKey mint
    → IsPublicKey dest
    → IsPublicKey authority
    → decimals < 256
    → (SplToken.transfer_checked source mint dest authority amount decimals
        ≡ ok (checked_of program source mint dest authority amount decimals))
      × IsInstruction (checked_of program source mint dest authority amount decimals)
unfolding SplToken.transfer_checked token_instruction write_u8
transfer_checked_lem program source mint dest authority amount decimals e s m d a small = (
  rw (e, ◌>>=◌),
  (
    token-IsPublicKey program e,
    (
      (s, (m, (d, (a, tt)))),
      (
        (
          omega arith,
          All-append IsByte (write_u64 amount) (decimals ∷ []) (write_u64-IsByte amount)
              (small, tt),
        ),
        unfold write_u64 write_u64_rounds in omega arith,
      ),
    ),
  ),
)

-- What the builder `createAssociatedTokenAccount` makes, with the keys of the programs.
abbrev pub created_of :
    PublicKey → PublicKey → PublicKey → PublicKey → PublicKey → PublicKey → PublicKey → Instruction
created_of associated token rent payer ata wallet mint = record {
  program_id = associated;
  accounts =
      meta payer true true
      ∷ meta ata false true
      ∷ meta wallet false false
      ∷ meta mint false false
      ∷ meta default_key false false
      ∷ meta token false false
      ∷ meta rent false false
      ∷ [];
  payload = [];
}

pub create_associated_token_account_lem :
    (associated token rent payer ata wallet mint : PublicKey)
    → associated_token_program_id ≡ ok associated
    → token_program_id ≡ ok token
    → rent_sysvar ≡ ok rent
    → IsPublicKey payer
    → IsPublicKey ata
    → IsPublicKey wallet
    → IsPublicKey mint
    → (SplToken.create_associated_token_account payer ata wallet mint
        ≡ ok (created_of associated token rent payer ata wallet mint))
      × IsInstruction (created_of associated token rent payer ata wallet mint)
unfolding SplToken.create_associated_token_account
create_associated_token_account_lem associated token rent payer ata wallet mint ea et er p a w m =
    let associated_key = associated_token-IsPublicKey associated ea in
    let token_key = token-IsPublicKey token et in
    let rent_key = rent-IsPublicKey rent er in
    (
      rw (system_program_id-zero, er, et, ea, ◌>>=◌),
      (
        associated_key,
        (
          (p, (a, (w, (m, (default_key-IsPublicKey, (token_key, (rent_key, tt))))))),
          (tt, omega arith),
        ),
      ),
    )
