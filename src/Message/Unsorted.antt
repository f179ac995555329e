-- ===== src/Message/Unsorted.antt =====
-- The order of the legacy key list that `Message::compile` of src/solana/message.cpp makes.
use solana_cpp_sdk.Base.{ℕ, ◌≡◌, refl, List, [], ◌∷◌, Bool, true, false, ok}
use solana_cpp_sdk.Base.{◌>>=◌}
use solana_cpp_sdk.PublicKey.{PublicKey, equals}
use solana_cpp_sdk.PublicKey.Laws.{equals_iff}
use solana_cpp_sdk.Instruction.{Instruction}
use solana_cpp_sdk.Accounts.{AccountInfo, find_or_add, upgrade, keys, index_from, count_u8}
use solana_cpp_sdk.Message.{Message, compile, compile_instructions, register_all}
use solana_cpp_sdk.Message.{compile_instruction, program_index_of, register_instructions}
use solana_cpp_sdk.Message.{register_metas, header_of, account_indices_of, push_index}

-- An instruction with an account that does not sign, followed by one that does.
abbrev pub signer_last : PublicKey → PublicKey → PublicKey → Bool → Bool → List ℕ → Instruction
signer_last program first last w w' payload = record {
  program_id = program;
  accounts =
      record { pubkey = first; is_signer = false; is_writable = w }
      ∷ record { pubkey = last; is_signer = true; is_writable = w' }
      ∷ [];
  payload = payload;
}

four : PublicKey → PublicKey → PublicKey → PublicKey → Bool → Bool → List AccountInfo
four payer a b program w w' =
    record { key = payer; is_signer = true; is_writable = true }
    ∷ record { key = a; is_signer = false; is_writable = w }
    ∷ record { key = b; is_signer = true; is_writable = w' }
    ∷ record { key = program; is_signer = false; is_writable = false }
    ∷ []

module _ (payer program a b : PublicKey) (w w' : Bool) (payload : List ℕ)
    (pa : equals payer a ≡ false) (pb : equals payer b ≡ false) (ab : equals a b ≡ false)
    (pp : equals payer program ≡ false) (a_p : equals a program ≡ false)
    (b_p : equals b program ≡ false) where
  register_four :
      register_all (signer_last program a b w w' payload ∷ []) payer ≡ four payer a b program w w'
  unfolding register_all register_instructions register_metas find_or_add upgrade four
  register_four = rw (find_or_add, pa, pb, ab, pp, a_p, b_p) refl

  resolve_four :
      compile_instruction
        (keys (four payer a b program w w'))
        (signer_last program a b w w' payload)
      ≡ ok (record { program_id_index = 3; account_indices = 1 ∷ 2 ∷ []; payload = payload })
  unfolding compile_instruction keys index_from program_index_of account_indices_of push_index four
  resolve_four =
      let pr : equals program program ≡ true = (equals_iff program program).1 refl in
      let ar : equals a a ≡ true = (equals_iff a a).1 refl in
      let br : equals b b ≡ true = (equals_iff b b).1 refl in
      rw
        (
          ◌>>=◌, program_index_of, account_indices_of, push_index, pa, pb, ab, pp, a_p, b_p, pr, ar,
          br,
        )
        refl

  -- For four different keys: the legacy message of an instruction whose second account alone signs
  -- asks for two signatures, and the second key of its list is the account that does not sign; the
  -- signer is the third.
  pub compile_unsorted :
      (blockhash : List ℕ)
      → (msg : Message) × (compile (signer_last program a b w w' payload ∷ []) payer blockhash
          ≡ ok msg)
        × (msg.header.num_required_signatures ≡ 2)
        × (msg.account_keys ≡ payer ∷ a ∷ b ∷ program ∷ [])
  unfolding compile compile_instructions header_of keys four count_u8
  compile_unsorted blockhash = (
    record {
      header = header_of (four payer a b program w w');
      account_keys = keys (four payer a b program w w');
      recent_blockhash = blockhash;
      instructions =
          record { program_id_index = 3; account_indices = 1 ∷ 2 ∷ []; payload = payload } ∷ [];
    },
    rw (register_four, resolve_four, ◌>>=◌) refl,
    refl,
    refl,
  )
