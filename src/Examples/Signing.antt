-- ===== src/Examples/Signing.antt =====
-- Key pairs, signatures and derived addresses with a small stand-in for libsodium.
use solana_cpp_sdk.Base.{ℕ, ◌+◌, ◌%◌, ◌≡◌, refl, arith, List, [], ◌∷◌, ◌++◌, Bool, true}
use solana_cpp_sdk.Base.{ok, length, get_elem?, get_or, some, replicate, ◌==◌, ==_iff}
use solana_cpp_sdk.Base.{◌⊎◌}
use solana_cpp_sdk.Sodium.{Sodium, IsSodium}
use solana_cpp_sdk.PublicKey.{equals, any_too_long, find_program_address, from_array}
use solana_cpp_sdk.PublicKey.{create_program_address, to_bytes}
use solana_cpp_sdk.PublicKey.Derived.{IsFound, IsExhausted, find_program_address_lem}
use solana_cpp_sdk.PublicKey.{find_below, catch_runtime_error, derive_hash, marker, to_buffer}
use solana_cpp_sdk.Keypair
use solana_cpp_sdk.Keypair.{Keypair}
use solana_cpp_sdk.Accounts.Laws.{Distinct}
use solana_cpp_sdk.Message
use solana_cpp_sdk.Base58
use solana_cpp_sdk.Wire.{write_compact_u16, write_compact_rounds}
use solana_cpp_sdk.Transaction
use solana_cpp_sdk.Transaction.{Transaction}
use solana_cpp_sdk.Transaction.Laws.{sign_verifies}
use solana_cpp_sdk.Examples.Data.{program, two_message}

abbrev pub sum : List ℕ → ℕ
sum [] = 0
sum (b ∷ bs) = b + sum bs

abbrev is_odd : ℕ → Bool
is_odd n = (n % 2) == 1

abbrev pub toy : Sodium
toy = record {
  ready = true;
  sha256 = λ m. (sum m % 256) ∷ replicate 31 0;
  is_valid_point = λ h. is_odd (get_or h 0 0);
  seed_keypair = λ s. (replicate 32 (get_or s 0 0), s ++ replicate 32 (get_or s 0 0));
  sign_detached = λ m sk. replicate 64 ((get_or sk 0 0 + sum m) % 256);
  verify_detached = λ s m pk. get_or s 0 0 == ((get_or pk 0 0 + sum m) % 256);
}

toy_verifies :
    (s m : List ℕ)
    → length s ≡ 32
    → (((get_or (s ++ replicate 32 (get_or s 0 0)) 0 0 + sum m) % 256)
        == ((get_or s 0 0 + sum m) % 256))
      ≡ true
toy_verifies [] m h = absurd (omega (arith, h))
toy_verifies (b ∷ s) m h = (==_iff ((b + sum m) % 256) ((b + sum m) % 256)).1 refl

pub toy-IsSodium : IsSodium toy
toy-IsSodium = record { keypair_layout = λ s h. (refl, refl); verify_sign = toy_verifies }

find_program_address_lem_example :
    ((bump : ℕ) × IsFound toy
        ((1 ∷ 2 ∷ []) ∷ [])
        program
        256
        bump
        (find_program_address toy ((1 ∷ 2 ∷ []) ∷ []) program))
    ⊎ IsExhausted toy
        ((1 ∷ 2 ∷ []) ∷ [])
        program
        256
        (find_program_address toy ((1 ∷ 2 ∷ []) ∷ []) program)
unfolding any_too_long
find_program_address_lem_example = find_program_address_lem toy ((1 ∷ 2 ∷ []) ∷ []) program refl

-- The key pair of the seed of 32 equal bytes.
abbrev pub key_pair : ℕ → Keypair
key_pair n = record { public_bytes = replicate 32 n; secret_bytes = replicate 64 n }

abbrev two_transaction : Transaction
two_transaction = record {
  message = two_message;
  signatures = replicate 64 0 ∷ replicate 64 0 ∷ [];
}

abbrev two_bytes : List ℕ
two_bytes =
    2
    ∷ 0
    ∷ 1
    ∷ 4
    ∷ (replicate 32 1
        ++ (replicate 32 2
            ++ (replicate 32 3
                ++ (replicate 32 9
                    ++ (replicate 32 0
                        ++ (2 ∷ 3 ∷ 2 ∷ 1 ∷ 2 ∷ 2 ∷ 7 ∷ 8 ∷ 3 ∷ 2 ∷ 2 ∷ 0 ∷ 0 ∷ []))))))

two_serialized : Message.serialize two_message ≡ ok two_bytes
unfolding Message.serialize Message.serialize_header Message.serialize_keys
    Message.serialize_instructions Message.serialize_instruction to_bytes write_compact_u16
    write_compact_rounds Base58.decode Base58.decode_loop Base58.digit_of Base58.decode_digit
    Base58.count_leading Base58.drop_zeros Base58.alphabet_map Base58.pass Base58.emit
two_serialized = refl

two_message-Distinct : Distinct two_message.account_keys
unfolding equals
two_message-Distinct = ((refl, (refl, (refl, tt))), ((refl, (refl, tt)), ((refl, tt), (tt, tt))))

pub made_from_seed : (n : ℕ) → Keypair.from_seed toy (replicate 32 n) ≡ ok (key_pair n)
unfolding Keypair.from_seed
made_from_seed n = refl

sign_verifies_example :
    (tx' : Transaction) × (Transaction.sign toy two_transaction (key_pair 2 ∷ key_pair 1 ∷ [])
      ≡ ok tx')
    × ((s : List ℕ) × (get_elem? tx'.signatures 0 ≡ some s)
        × (toy.verify_detached s two_bytes (Keypair.public_key (key_pair 1)).bytes ≡ true))
unfolding Keypair.public_key from_array
sign_verifies_example =
    sign_verifies toy toy-IsSodium refl two_transaction (key_pair 2) (key_pair 1 ∷ []) two_bytes
      two_serialized two_message-Distinct
      ((replicate 32 2, refl, made_from_seed 2), ((replicate 32 1, refl, made_from_seed 1), tt)) 0 1
      (key_pair 1) refl (omega arith) refl

found_address :
    find_program_address toy ((1 ∷ 2 ∷ []) ∷ []) program
    ≡ ok (record { bytes = 130 ∷ replicate 31 0 }, 254)
unfolding find_program_address find_below create_program_address catch_runtime_error any_too_long
    derive_hash marker to_buffer from_array
found_address = refl
