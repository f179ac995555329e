-- ===== src/Examples/Format.antt =====
-- The wire formats, lookup tables and token builders at small inputs.
use solana_cpp_sdk.Base.{ℕ, ◌≡◌, refl, arith, List, [], ◌∷◌, ◌++◌, none, some, ok}
use solana_cpp_sdk.Base.{replicate, ◌⊎◌}
use solana_cpp_sdk.PublicKey.{PublicKey, equals}
use solana_cpp_sdk.LookupTable.{parse}
use solana_cpp_sdk.LookupTable.Laws.{IsParsed, parse_lem, table_bytes, parse-table_bytes}
use solana_cpp_sdk.Message.Format.{read_message}
use solana_cpp_sdk.Message.Format as Legacy
use solana_cpp_sdk.MessageV0
use solana_cpp_sdk.MessageV0.{MessageV0}
use solana_cpp_sdk.MessageV0.Format.{IsWire, wire, read_message_v0, read_message_v0-serialize}
use solana_cpp_sdk.MessageV0.Buckets.{named_twice, holding, compile_twice}
use solana_cpp_sdk.Transaction
use solana_cpp_sdk.Transaction.{Transaction, TransactionV0}
use solana_cpp_sdk.Transaction.Format.{read_signed, read_versioned, read_signed-serialize_legacy}
use solana_cpp_sdk.Transaction.Format.{read_signed-serialize_v0}
use solana_cpp_sdk.Examples.Data.{
  key, payer_key, program, blockhash, two_message, looked_up_message,
}
use solana_cpp_sdk.Examples.Compile.{two_message-IsWire, blockhash_decodes}

looked_up_message-IsWire : IsWire looked_up_message
looked_up_message-IsWire = record {
  keys_fit = omega arith;
  keys_whole = (refl, (refl, (refl, tt)));
  instructions_fit = omega arith;
  instructions_short = ((omega arith, omega arith), tt);
  lookups_fit = omega arith;
  lookups_whole = ((refl, (omega arith, omega arith)), tt);
}

read_message_v0-serialize_example :
    (bytes : List ℕ) × (MessageV0.serialize looked_up_message ≡ ok bytes)
    × ((rest : List ℕ)
        → read_message_v0 (bytes ++ rest) ≡ some (wire looked_up_message (replicate 32 0), rest))
read_message_v0-serialize_example =
    read_message_v0-serialize looked_up_message (replicate 32 0) looked_up_message-IsWire refl
      blockhash_decodes

abbrev two_signatures : List (List ℕ)
two_signatures = replicate 64 5 ∷ replicate 64 6 ∷ []

read_signed-serialize_legacy_example :
    (bytes : List ℕ) × (Transaction.serialize
        (record { message = two_message; signatures = two_signatures })
      ≡ ok bytes)
    × ((rest : List ℕ)
        → read_signed read_message (bytes ++ rest)
          ≡ some ((two_signatures, Legacy.wire two_message (replicate 32 0)), rest))
read_signed-serialize_legacy_example =
    read_signed-serialize_legacy (record { message = two_message; signatures = two_signatures })
      (replicate 32 0) two_message-IsWire refl blockhash_decodes (omega arith) (refl, (refl, tt))

read_signed-serialize_v0_example :
    (bytes : List ℕ) × (Transaction.serialize_v0
        (record { message = looked_up_message; signatures = two_signatures })
      ≡ ok bytes)
    × ((rest : List ℕ)
        → read_signed read_versioned (bytes ++ rest)
          ≡ some ((two_signatures, wire looked_up_message (replicate 32 0)), rest))
read_signed-serialize_v0_example =
    read_signed-serialize_v0 (record { message = looked_up_message; signatures = two_signatures })
      (replicate 32 0) looked_up_message-IsWire refl blockhash_decodes (omega arith)
      (refl, (refl, tt))

compile_twice_example :
    (msg : MessageV0) × (MessageV0.compile
        (named_twice program (key 3) (7 ∷ []) ∷ [])
        payer_key
        blockhash
        (holding (key 20) (key 3) (key 4 ∷ []) ∷ [])
      ≡ ok msg)
    × (msg.address_table_lookups
        ≡ record { account_key = key 20; writable_indexes = []; readonly_indexes = 0 ∷ [] } ∷ [])
unfolding equals
compile_twice_example =
    compile_twice payer_key program (key 3) (key 20) (key 4 ∷ []) (7 ∷ []) refl refl refl blockhash

parse_lem_example :
    (parse (key 20) (1 ∷ 0 ∷ 0 ∷ 0 ∷ replicate 50 0) ≡ ok none)
    ⊎ ((ks : List PublicKey) × IsParsed (key 20) (1 ∷ 0 ∷ 0 ∷ 0 ∷ replicate 50 0) ks)
parse_lem_example = parse_lem (key 20) (1 ∷ 0 ∷ 0 ∷ 0 ∷ replicate 50 0)

parse-table_bytes_example :
    parse (key 20) (table_bytes (replicate 17 0) (some (replicate 32 8)) (key 3 ∷ key 4 ∷ []))
    ≡ ok (some (record { key = key 20; addresses = key 3 ∷ key 4 ∷ [] }))
parse-table_bytes_example =
    parse-table_bytes (key 20) (replicate 17 0) (some (replicate 32 8)) (key 3 ∷ key 4 ∷ []) refl
      refl (refl, (refl, tt))
