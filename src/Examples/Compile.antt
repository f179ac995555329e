-- ===== src/Examples/Compile.antt =====
-- The two `compile` functions on small instructions.
use solana_cpp_sdk.Lookups.Known.{first_pass-IsLookup}
use solana_cpp_sdk.Lookups.Registers.{IsLookup}
use solana_cpp_sdk.MessageV0.{MessageV0}
use solana_cpp_sdk.MessageV0.Total.{compile_returns}
use solana_cpp_sdk.Base.{ℕ, ◌%◌, ◌≡◌, refl, arith, List, [], ◌∷◌, true, false}
use solana_cpp_sdk.Base.{◌||◌, ◌&&◌, not, ok, get_elem?, some, replicate, ◌++◌}
use solana_cpp_sdk.PublicKey.{PublicKey, equals}
use solana_cpp_sdk.Accounts.{upgrade, find_or_add, keys, index_from, count_u8}
use solana_cpp_sdk.Accounts.Laws.{Distinct, has_key, writes}
use solana_cpp_sdk.Accounts.Counts.{count_keys}
use solana_cpp_sdk.Base58
use solana_cpp_sdk.Lookups
use solana_cpp_sdk.Message
use solana_cpp_sdk.Message.{Message, register_metas, register_instructions, register_all}
use solana_cpp_sdk.Message.{push_index, account_indices_of, program_index_of, compile_instruction}
use solana_cpp_sdk.Message.{compile_instructions}
use solana_cpp_sdk.Message.Table.{named, signed, written}
use solana_cpp_sdk.Message.Laws.{compile_keys, compile_header, compile-Resolves, Resolves}
use solana_cpp_sdk.Message.Format.{IsWire, read_message, read_message-serialize}
use solana_cpp_sdk.Message.Unsorted.{compile_unsorted, signer_last}
use solana_cpp_sdk.MessageV0
use solana_cpp_sdk.MessageV0.Resolve.{compile-Resolves_v0}
use solana_cpp_sdk.MessageV0.Order.{reads_signer, reads_writable}
use solana_cpp_sdk.MessageV0.Laws.{compile_reads}
use solana_cpp_sdk.Examples.Data.{key, payer_key, program, two_instructions, blockhash, two_message}
use solana_cpp_sdk.Examples.Data.{tables, looked_up, looked_up_message}

compile_keys_example :
    (msg : Message) × (Message.compile two_instructions payer_key blockhash ≡ ok msg)
    × (get_elem? msg.account_keys 0 ≡ some payer_key)
    × Distinct msg.account_keys
    × ((k : PublicKey)
        → has_key msg.account_keys k ≡ (equals payer_key k || named two_instructions k))
compile_keys_example = compile_keys two_instructions payer_key blockhash

compile_header_example :
    (msg : Message) × (Message.compile two_instructions payer_key blockhash ≡ ok msg)
    × (msg.header.num_required_signatures
        ≡ count_keys (λ k. equals payer_key k || signed two_instructions k) msg.account_keys % 256)
    × (msg.header.num_readonly_signed_accounts
        ≡ count_keys
            (λ k.
              (equals payer_key k || signed two_instructions k)
              && not (equals payer_key k || written two_instructions k))
            msg.account_keys
          % 256)
    × (msg.header.num_readonly_unsigned_accounts
        ≡ count_keys
            (λ k.
              not (equals payer_key k || signed two_instructions k)
              && not (equals payer_key k || written two_instructions k))
            msg.account_keys
          % 256)
compile_header_example = compile_header two_instructions payer_key blockhash

two_compiled : Message.compile two_instructions payer_key blockhash ≡ ok two_message
unfolding Message.compile register_all register_instructions register_metas find_or_add upgrade keys
    index_from count_u8 Message.header_of compile_instructions compile_instruction program_index_of
    account_indices_of push_index equals
two_compiled = refl

compile-Resolves_example :
    Resolves two_message.account_keys two_instructions two_message.instructions
compile-Resolves_example =
    compile-Resolves two_instructions payer_key blockhash two_message two_compiled (omega arith)

pub blockhash_decodes : Base58.decode blockhash ≡ ok (replicate 32 0)
unfolding Base58.decode Base58.decode_loop Base58.digit_of Base58.decode_digit Base58.count_leading
    Base58.drop_zeros Base58.alphabet_map Base58.pass Base58.emit
blockhash_decodes = refl

pub two_message-IsWire : IsWire two_message
two_message-IsWire = record {
  keys_fit = omega arith;
  keys_whole = (refl, (refl, (refl, (refl, tt))));
  instructions_fit = omega arith;
  instructions_short = ((omega arith, omega arith), ((omega arith, omega arith), tt));
}

read_message-serialize_example :
    (bytes : List ℕ) × (Message.serialize two_message ≡ ok bytes)
    × ((rest : List ℕ)
        → read_message (bytes ++ rest)
          ≡ some (
            record {
              header = two_message.header;
              account_keys = two_message.account_keys;
              blockhash = replicate 32 0;
              instructions = two_message.instructions;
            },
            rest,
          ))
read_message-serialize_example =
    read_message-serialize two_message (replicate 32 0) two_message-IsWire refl blockhash_decodes

compile_unsorted_example :
    (msg : Message) × (Message.compile
        (signer_last program (key 3) (key 4) true false (6 ∷ []) ∷ [])
        payer_key
        blockhash
      ≡ ok msg)
    × (msg.header.num_required_signatures ≡ 2)
    × (msg.account_keys ≡ payer_key ∷ key 3 ∷ key 4 ∷ program ∷ [])
unfolding equals
compile_unsorted_example =
    compile_unsorted payer_key program (key 3) (key 4) true false (6 ∷ []) refl refl refl refl refl
      refl blockhash

looked_up_compiled : MessageV0.compile looked_up payer_key blockhash tables ≡ ok looked_up_message
unfolding MessageV0.compile Lookups.first_pass Lookups.process_instructions Lookups.process_metas
    Lookups.process_meta Lookups.add_static Lookups.find_or_add_lookup Lookups.push_at
    Lookups.push_bucket Lookups.upgrade_lookup Lookups.find_in_lookup Lookups.find_address
    Lookups.is_empty MessageV0.sort_accounts MessageV0.select MessageV0.header_of
    MessageV0.lookup_keys MessageV0.addresses_at MessageV0.address_at MessageV0.resolve_instructions
    MessageV0.resolve_metas MessageV0.resolve_index MessageV0.lookup_section find_or_add upgrade
    keys index_from count_u8 equals
looked_up_compiled = refl

compile_reads_example :
    (reads_signer looked_up_message.header 1
      ≡ (equals payer_key (key 2) || signed looked_up (key 2)))
    × (reads_writable looked_up_message.header 3 1
        ≡ writes (Lookups.first_pass tables looked_up payer_key).static_accounts (key 2))
compile_reads_example =
    compile_reads looked_up payer_key blockhash tables looked_up_message 1 (key 2)
      looked_up_compiled (omega arith) refl

looked_up_keys :
    (MessageV0.lookup_keys
        (λ b. b.writable_idx)
        tables
        (Lookups.first_pass tables looked_up payer_key).table_buckets
      ≡ ok (key 3 ∷ []))
    × (MessageV0.lookup_keys
          (λ b. b.readonly_idx)
          tables
          (Lookups.first_pass tables looked_up payer_key).table_buckets
        ≡ ok [])
unfolding Lookups.first_pass Lookups.process_instructions Lookups.process_metas Lookups.process_meta
    Lookups.add_static Lookups.find_or_add_lookup Lookups.push_at Lookups.push_bucket
    Lookups.upgrade_lookup Lookups.find_in_lookup Lookups.find_address Lookups.is_empty
    MessageV0.lookup_keys MessageV0.addresses_at MessageV0.address_at find_or_add upgrade equals
looked_up_keys = (refl, refl)

compile-Resolves_v0_example :
    Resolves
      (looked_up_message.static_account_keys ++ ((key 3 ∷ []) ++ []))
      looked_up
      looked_up_message.instructions
    × (looked_up_message.address_table_lookups
        ≡ MessageV0.lookup_section tables
            (Lookups.first_pass tables looked_up payer_key).table_buckets)
compile-Resolves_v0_example =
    compile-Resolves_v0 looked_up payer_key blockhash tables looked_up_message (key 3 ∷ []) []
      looked_up_compiled looked_up_keys.0 looked_up_keys.1 (omega arith)

compile_returns_example :
    (msg : MessageV0) × (MessageV0.compile looked_up payer_key blockhash tables ≡ ok msg)
compile_returns_example = compile_returns tables looked_up payer_key blockhash (omega arith, tt)

first_pass-IsLookup_example : IsLookup tables (Lookups.first_pass tables looked_up payer_key)
first_pass-IsLookup_example = first_pass-IsLookup tables looked_up payer_key (omega arith, tt)
