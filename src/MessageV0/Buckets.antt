-- ===== src/MessageV0/Buckets.antt =====
-- What `findOrAddLookup` of src/solana/message_v0.cpp does to an account that is named twice.
use solana_cpp_sdk.Base.{ℕ, ◌≡◌, refl, List, [], ◌∷◌, Bool, some, true, false, ok, ◌>>=◌}
use solana_cpp_sdk.PublicKey.{PublicKey, equals}
use solana_cpp_sdk.PublicKey.Laws.{equals_iff}
use solana_cpp_sdk.Instruction.{Instruction}
use solana_cpp_sdk.LookupTable.{AddressLookupTableAccount}
use solana_cpp_sdk.Accounts.{find_or_add, upgrade, keys, index_from, count_u8}
use solana_cpp_sdk.Lookups
use solana_cpp_sdk.Lookups.{Pass, first_pass}
use solana_cpp_sdk.MessageV0
use solana_cpp_sdk.MessageV0.{MessageV0, compile}

-- An instruction that names an account as readonly, and then as writable.
abbrev pub named_twice : PublicKey → PublicKey → List ℕ → Instruction
named_twice program x payload = record {
  program_id = program;
  accounts =
      record { pubkey = x; is_signer = false; is_writable = false }
      ∷ record { pubkey = x; is_signer = false; is_writable = true }
      ∷ [];
  payload = payload;
}

-- A table that starts with the account.
abbrev pub holding : PublicKey → PublicKey → List PublicKey → AddressLookupTableAccount
holding table x others = record { key = table; addresses = x ∷ others }

module _ (payer program x table : PublicKey) (others : List PublicKey) (payload : List ℕ)
    (payer_program : equals payer program ≡ false) (payer_x : equals payer x ≡ false)
    (program_x : equals program x ≡ false) where
  pass : Pass
  pass = record {
    static_accounts =
        record { key = payer; is_signer = true; is_writable = true }
        ∷ record { key = program; is_signer = false; is_writable = false }
        ∷ [];
    registered_lookups = record { table_idx = 0; addr_idx = 0; is_writable = true } ∷ [];
    table_buckets = record { writable_idx = []; readonly_idx = 0 ∷ [] } ∷ [];
  }

  found :
      (w : Bool)
      → Lookups.find_in_lookup 0 (holding table x others ∷ []) x w
        ≡ some (record { table_idx = 0; addr_idx = 0; is_writable = w })
  unfolding Lookups.find_in_lookup Lookups.find_address
  found w =
      let self : equals x x ≡ true = (equals_iff x x).1 refl in
      rw (Lookups.find_in_lookup, Lookups.find_address, self)

  process_meta-found :
      (p : Pass) (w : Bool)
      → Lookups.process_meta
          (holding table x others ∷ [])
          p
          (record { pubkey = x; is_signer = false; is_writable = w })
        ≡ Lookups.find_or_add_lookup p 0 0 w
  unfolding Lookups.process_meta Lookups.is_empty
  process_meta-found p w = rw (found w)

  first_pass-twice :
      first_pass (holding table x others ∷ []) (named_twice program x payload ∷ []) payer ≡ pass
  unfolding first_pass Lookups.process_instructions Lookups.process_metas Lookups.add_static
      Lookups.find_or_add_lookup Lookups.push_at Lookups.push_bucket Lookups.upgrade_lookup
      find_or_add upgrade pass
  first_pass-twice = rw (process_meta-found _ false, process_meta-found _ true, payer_program) refl

  -- For a fee payer, a program and a third account, all different, and one table, whose first
  -- address is that account: the lookup section of the message of one instruction that names just
  -- this account, as readonly and then as writable, has its index among the readonly ones and no
  -- writable index.
  pub compile_twice :
      (blockhash : List ℕ)
      → (msg : MessageV0) × (compile
            (named_twice program x payload ∷ [])
            payer
            blockhash
            (holding table x others ∷ [])
          ≡ ok msg)
        × (msg.address_table_lookups
            ≡ record { account_key = table; writable_indexes = []; readonly_indexes = 0 ∷ [] } ∷ [])
  unfolding compile MessageV0.sort_accounts MessageV0.select MessageV0.header_of
      MessageV0.lookup_keys MessageV0.addresses_at MessageV0.address_at
      MessageV0.resolve_instructions MessageV0.resolve_metas MessageV0.resolve_index
      MessageV0.lookup_section Lookups.is_empty keys index_from count_u8 pass
  compile_twice blockhash =
      let self : equals x x ≡ true = (equals_iff x x).1 refl in
      let self' : equals program program ≡ true = (equals_iff program program).1 refl in
      (
        record {
          header = MessageV0.header_of (MessageV0.sort_accounts pass.static_accounts);
          static_account_keys = payer ∷ program ∷ [];
          recent_blockhash = blockhash;
          instructions =
              record { program_id_index = 1; account_indices = 2 ∷ 2 ∷ []; payload = payload } ∷ [];
          address_table_lookups =
              record { account_key = table; writable_indexes = []; readonly_indexes = 0 ∷ [] } ∷ [];
        },
        rw
            (
              first_pass-twice, ◌>>=◌, MessageV0.resolve_index, MessageV0.resolve_metas,
              payer_program, payer_x, program_x, self, self',
            )
            refl,
        refl,
      )
