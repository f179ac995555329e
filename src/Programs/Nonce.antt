-- ===== src/Programs/Nonce.antt =====
-- The nonce builders of src/solana/programs/system_program.cpp that name the blockhashes sysvar.
use solana_cpp_sdk.Base.{ℕ, ◌≡◌, refl, err, ◌>>=◌, codes, invalid_base58_character}
use solana_cpp_sdk.Base58.{digit_of, alphabet_map}
use solana_cpp_sdk.Base58.RoundTrip.{decode_refuses}
use solana_cpp_sdk.PublicKey.{PublicKey, from_base58}
use solana_cpp_sdk.Programs.System.{recent_blockhashes_sysvar, advance_nonce_account}
use solana_cpp_sdk.Programs.System.{withdraw_nonce_account, initialize_nonce_account}

-- The character `l` at index 16.
sysvar_refused : recent_blockhashes_sysvar ≡ err invalid_base58_character
unfolding recent_blockhashes_sysvar from_base58 digit_of alphabet_map
sysvar_refused =
    rw (decode_refuses (codes "SysvarRecentB1telephones11111111111111111") 16 108 refl refl, ◌>>=◌)

-- On every input, the builders advance_nonce_account, withdraw_nonce_account and
-- initialize_nonce_account throw "Invalid Base58 character" and make no instruction.
pub nonce_instructions_throw :
    (nonce authorized to : PublicKey) (lamports : ℕ)
    → (advance_nonce_account nonce authorized ≡ err invalid_base58_character)
      × (withdraw_nonce_account nonce authorized to lamports ≡ err invalid_base58_character)
      × (initialize_nonce_account nonce authorized ≡ err invalid_base58_character)
unfolding advance_nonce_account withdraw_nonce_account initialize_nonce_account
nonce_instructions_throw nonce authorized to lamports =
    (rw (sysvar_refused, ◌>>=◌), rw (sysvar_refused, ◌>>=◌), rw (sysvar_refused, ◌>>=◌))
