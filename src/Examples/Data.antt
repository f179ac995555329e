-- ===== src/Examples/Data.antt =====
-- Keys, instructions and messages that the examples share.
use solana_cpp_sdk.Base64.{Compiler, IsWrapping}
use solana_cpp_sdk.Base.{ok, u32, ◌*◌, ◌^◌, refl}
use solana_cpp_sdk.Base.{
  ℕ, List, [], ◌∷◌, Bool, true, false, replicate, ltb, ◌&&◌, ◌≡◌, All, IsByte, arith,
}
use solana_cpp_sdk.PublicKey.{PublicKey}
use solana_cpp_sdk.Instruction.{AccountMeta, Instruction}
use solana_cpp_sdk.LookupTable.{AddressLookupTableAccount}
use solana_cpp_sdk.Message.{Message}
use solana_cpp_sdk.MessageV0.{MessageV0}

-- The key of 32 equal bytes.
abbrev pub key : ℕ → PublicKey
key n = record { bytes = replicate 32 n }

abbrev pub payer_key : PublicKey
payer_key = key 1

abbrev pub program : PublicKey
program = key 9

abbrev pub account : ℕ → Bool → Bool → AccountMeta
account n signer writable = record { pubkey = key n; is_signer = signer; is_writable = writable }

abbrev pub two_instructions : List Instruction
two_instructions =
    record {
      program_id = program;
      accounts = account 2 true true ∷ account 3 false false ∷ [];
      payload = 7 ∷ 8 ∷ [];
    }
    ∷ record {
      program_id = program;
      accounts = account 3 false true ∷ account 1 true false ∷ [];
      payload = [];
    }
    ∷ []

-- 32 characters `1`, the text of 32 zero bytes.
abbrev pub blockhash : List ℕ
blockhash = replicate 32 49

abbrev pub two_message : Message
two_message = record {
  header = record {
    num_required_signatures = 2;
    num_readonly_signed_accounts = 0;
    num_readonly_unsigned_accounts = 1;
  };
  account_keys = payer_key ∷ key 2 ∷ key 3 ∷ program ∷ [];
  recent_blockhash = blockhash;
  instructions =
      record { program_id_index = 3; account_indices = 1 ∷ 2 ∷ []; payload = 7 ∷ 8 ∷ [] }
      ∷ record { program_id_index = 3; account_indices = 2 ∷ 0 ∷ []; payload = [] }
      ∷ [];
}

-- A table that holds the third account.
abbrev pub tables : List AddressLookupTableAccount
tables = record { key = key 20; addresses = key 4 ∷ key 3 ∷ [] } ∷ []

abbrev pub looked_up : List Instruction
looked_up =
    record {
      program_id = program;
      accounts = account 3 false true ∷ account 2 true false ∷ [];
      payload = 5 ∷ [];
    }
    ∷ []

abbrev pub looked_up_message : MessageV0
looked_up_message = record {
  header = record {
    num_required_signatures = 2;
    num_readonly_signed_accounts = 1;
    num_readonly_unsigned_accounts = 1;
  };
  static_account_keys = payer_key ∷ key 2 ∷ program ∷ [];
  recent_blockhash = blockhash;
  instructions =
      record { program_id_index = 2; account_indices = 3 ∷ 1 ∷ []; payload = 5 ∷ [] } ∷ [];
  address_table_lookups =
      record { account_key = key 20; writable_indexes = 1 ∷ []; readonly_indexes = [] } ∷ [];
}

abbrev pub are_bytes : List ℕ → Bool
are_bytes [] = true
are_bytes (b ∷ bs) = ltb b 256 && are_bytes bs

pub are_bytes-IsByte : (bs : List ℕ) → are_bytes bs ≡ true → All IsByte bs
are_bytes-IsByte [] h = tt
are_bytes-IsByte (b ∷ bs) h = (ground (arith, h), are_bytes-IsByte bs (ground (arith, h)))

-- A compiler like GCC, on which signed shifts wrap.
abbrev pub wrapping : Compiler
wrapping = record { overflowed_shift = λ val. ok (u32 (val * 2 ^ 6)) }

pub wrapping-IsWrapping : IsWrapping wrapping
wrapping-IsWrapping val = refl
