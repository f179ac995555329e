-- ===== src/Programs/Laws.antt =====
-- The payloads of the builders, read as the programs read them.
use solana_cpp_sdk.Base.{ℕ, ◌^◌, ◌<◌, ◌≡◌, refl, arith, ap, List, [], ◌∷◌, ◌++◌}
use solana_cpp_sdk.Base.{
  Option, none, some, ◌==◌, ==_iff, if◌then◌else◌, length, take, drop, Result, ok, ◌>>=◌,
}
use solana_cpp_sdk.Wire.{write_u32, write_u64, write_u64_rounds}
use solana_cpp_sdk.Wire.Spec.{le_value}
use solana_cpp_sdk.PublicKey.{PublicKey, default_key, to_bytes}
use solana_cpp_sdk.Instruction.{AccountMeta, Instruction}
use solana_cpp_sdk.Programs.Keys.{system_program_id-zero}
use solana_cpp_sdk.Programs.System
use solana_cpp_sdk.Programs.System.{system_instruction, tag, transfer_tag, create_account_tag}
use solana_cpp_sdk.Programs.System.{assign_tag, allocate_tag, meta}
use solana_cpp_sdk.Base.{true, false}

-- The system program: a 32-bit tag, then the fields; an owner is 32 bytes.
pub data SystemData : Type 0 where
  create_account : ℕ → ℕ → List ℕ → SystemData
  assign : List ℕ → SystemData
  transfer : ℕ → SystemData
  allocate : ℕ → SystemData

read_fields : ℕ → List ℕ → Option SystemData
read_fields n fields =
    if (n == 0)
    then (if length fields == 48
        then some (
            create_account (le_value (take 8 fields)) (le_value (take 8 (drop 8 fields)))
              (drop 16 fields))
        else none)
    else if (n == 1)
    then (if length fields == 32 then some (assign fields) else none)
    else if (n == 2)
    then (if length fields == 8 then some (transfer (le_value fields)) else none)
    else if (n == 8)
    then (if length fields == 8 then some (allocate (le_value fields)) else none)
    else none

pub read_system : List ℕ → Option SystemData
read_system payload = read_fields (le_value (take 4 payload)) (drop 4 payload)

-- The builder answers with an instruction of the system program whose payload reads as `d`.
abbrev pub Means : Result Instruction → List AccountMeta → SystemData → Type 0
Means r accounts d =
    (ix : Instruction) × (r ≡ ok ix)
    × (ix.program_id ≡ default_key)
    × (ix.accounts ≡ accounts)
    × (read_system ix.payload ≡ some d)

system_instruction_lem :
    (accounts : List AccountMeta) (payload : List ℕ) (d : SystemData)
    → read_system payload ≡ some d
    → Means (system_instruction accounts payload) accounts d
unfolding system_instruction
system_instruction_lem accounts payload d e = (
  record { program_id = default_key; accounts = accounts; payload = payload },
  rw (system_program_id-zero, ◌>>=◌),
  refl,
  refl,
  e,
)

abbrev IsU64 : ℕ → Type 0
IsU64 n = n < 2 ^ 64

transfer_payload :
    (lamports : ℕ)
    → IsU64 lamports
    → read_system (write_u32 (tag transfer_tag) ++ write_u64 lamports) ≡ some (transfer lamports)
unfolding read_system read_fields write_u32 write_u64 write_u64_rounds tag
transfer_payload lamports h = ap some (ap transfer (omega arith))

allocate_payload :
    (space : ℕ)
    → IsU64 space
    → read_system (write_u32 (tag allocate_tag) ++ write_u64 space) ≡ some (allocate space)
unfolding read_system read_fields write_u32 write_u64 write_u64_rounds tag
allocate_payload space h = ap some (ap allocate (omega arith))

assign_payload :
    (owner : List ℕ)
    → length owner ≡ 32
    → read_system (write_u32 (tag assign_tag) ++ owner) ≡ some (assign owner)
unfolding read_system read_fields write_u32 tag
assign_payload owner h = rw ((==_iff (length owner) 32).1 h)

create_account_eq :
    (l l' s s' : ℕ) (owner : List ℕ)
    → l ≡ l'
    → s ≡ s'
    → create_account l s owner ≡ create_account l' s' owner
create_account_eq l l' s s' owner p q = cc

create_account_payload :
    (lamports space : ℕ) (owner : List ℕ)
    → IsU64 lamports
    → IsU64 space
    → length owner ≡ 32
    → read_system
        (write_u32 (tag create_account_tag) ++ (write_u64 lamports ++ (write_u64 space ++ owner)))
      ≡ some (create_account lamports space owner)
unfolding read_system read_fields write_u32 write_u64 write_u64_rounds tag
create_account_payload lamports space owner hl hs h =
    let fit : (length (write_u64 lamports ++ (write_u64 space ++ owner)) == 48) ≡ true =
      (==_iff _ _).1 (omega arith) in
    rw fit (ap some (create_account_eq _ lamports _ space owner (omega arith) (omega arith)))

-- The builders of the system program name that program, pass the accounts with their flags, and
-- write payloads that read as the numbers and owners given; numbers are below 2 ^ 64, and an owner
-- has 32 bytes.
pub system_builders :
    (a b : PublicKey) (lamports space : ℕ) (owner : PublicKey)
    → lamports < 2 ^ 64
    → space < 2 ^ 64
    → length owner.bytes ≡ 32
    → Means
        (System.transfer a b lamports)
        (meta a true true ∷ meta b false true ∷ [])
        (transfer lamports)
      × Means
          (System.create_account a b lamports space owner)
          (meta a true true ∷ meta b true true ∷ [])
          (create_account lamports space owner.bytes)
      × Means (System.assign a owner) (meta a true true ∷ []) (assign owner.bytes)
      × Means (System.allocate a space) (meta a true true ∷ []) (allocate space)
unfolding System.transfer System.create_account System.assign System.allocate to_bytes
system_builders a b lamports space owner hl hs ho = (
  system_instruction_lem _ _ _ (transfer_payload lamports hl),
  system_instruction_lem _ _ _ (create_account_payload lamports space owner.bytes hl hs ho),
  system_instruction_lem _ _ _ (assign_payload owner.bytes ho),
  system_instruction_lem _ _ _ (allocate_payload space hs),
)
