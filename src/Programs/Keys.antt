-- ===== src/Programs/Keys.antt =====
-- The program addresses that the builders read from texts.
use solana_cpp_sdk.Base.{◌≡◌, refl, length, replicate, Result, ok, err}
use solana_cpp_sdk.Base58.{decode, decode_loop, decode_digit, pass, emit, digit_of, alphabet_map}
use solana_cpp_sdk.Base58.{drop_zeros, count_leading}
use solana_cpp_sdk.PublicKey.{PublicKey, from_base58, default_key}
use solana_cpp_sdk.Programs.System.{system_program_id, rent_sysvar}
use solana_cpp_sdk.Programs.SplToken.{token_program_id, associated_token_program_id}
use solana_cpp_sdk.Programs.ComputeBudget.{compute_budget_program_id}

unfoldable evaluate : Result PublicKey → PublicKey
unfolding decode decode_loop decode_digit pass emit digit_of alphabet_map drop_zeros count_leading
evaluate (ok k) = k
evaluate (err e) = record { bytes = replicate 32 0 }

-- The result is a key of 32 bytes.
abbrev pub IsKey : Result PublicKey → Type 0
IsKey r = (k : PublicKey) × (r ≡ ok k) × (length k.bytes ≡ 32)

pub system_program_id-zero : system_program_id ≡ ok default_key
unfolding system_program_id from_base58 default_key evaluate
system_program_id-zero = refl

pub token_program_id-IsKey : IsKey token_program_id
unfolding token_program_id from_base58 evaluate
token_program_id-IsKey = (evaluate token_program_id, refl, refl)

pub associated_token_program_id-IsKey : IsKey associated_token_program_id
unfolding associated_token_program_id from_base58 evaluate
associated_token_program_id-IsKey = (evaluate associated_token_program_id, refl, refl)

pub compute_budget_program_id-IsKey : IsKey compute_budget_program_id
unfolding compute_budget_program_id from_base58 evaluate
compute_budget_program_id-IsKey = (evaluate compute_budget_program_id, refl, refl)

pub rent_sysvar-IsKey : IsKey rent_sysvar
unfolding rent_sysvar from_base58 evaluate
rent_sysvar-IsKey = (evaluate rent_sysvar, refl, refl)
