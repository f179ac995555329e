-- ===== src/Examples/Codec.antt =====
-- The codecs, keys and instruction builders at small inputs.
use solana_cpp_sdk.Base.{ℕ, ◌≡◌, arith, List, [], ◌∷◌, ◌++◌}
use solana_cpp_sdk.Base.{ok, err, some, All, IsByte}
use solana_cpp_sdk.Base.{invalid_base58_character}
use solana_cpp_sdk.Base58
use solana_cpp_sdk.Base58.RoundTrip.{decode-encode}
use solana_cpp_sdk.Base64.{base64_encode, base64_decode}
use solana_cpp_sdk.Base64.Laws.{base64_decode-encode}
use solana_cpp_sdk.Wire.{write_compact_u16}
use solana_cpp_sdk.Wire.Spec.{read_compact_u16}
use solana_cpp_sdk.Wire.Laws.{read-write_compact_u16}
use solana_cpp_sdk.Programs.System.{advance_nonce_account, withdraw_nonce_account}
use solana_cpp_sdk.Programs.System.{initialize_nonce_account}
use solana_cpp_sdk.Programs.Laws.{}
use solana_cpp_sdk.Programs.Nonce.{nonce_instructions_throw}
use solana_cpp_sdk.Examples.Data.{key, wrapping, wrapping-IsWrapping}

three-bytes : All IsByte (0 ∷ 200 ∷ 7 ∷ [])
three-bytes = (omega arith, (omega arith, (omega arith, tt)))

decode-encode_example :
    (text : List ℕ) × (Base58.encode (0 ∷ 200 ∷ 7 ∷ []) ≡ ok text)
    × (Base58.decode text ≡ ok (0 ∷ 200 ∷ 7 ∷ []))
decode-encode_example = decode-encode (0 ∷ 200 ∷ 7 ∷ []) three-bytes

six-bytes : All IsByte (90 ∷ 200 ∷ 7 ∷ 1 ∷ 2 ∷ 255 ∷ [])
six-bytes =
    (omega arith, (omega arith, (omega arith, (omega arith, (omega arith, (omega arith, tt))))))

base64_decode-encode_example :
    base64_decode wrapping (base64_encode (90 ∷ 200 ∷ 7 ∷ 1 ∷ 2 ∷ 255 ∷ []))
    ≡ ok (90 ∷ 200 ∷ 7 ∷ 1 ∷ 2 ∷ 255 ∷ [])
base64_decode-encode_example =
    base64_decode-encode wrapping wrapping-IsWrapping (90 ∷ 200 ∷ 7 ∷ 1 ∷ 2 ∷ 255 ∷ []) six-bytes

read-write_compact_u16_example :
    read_compact_u16 (write_compact_u16 300 ++ (9 ∷ [])) ≡ some (300, 9 ∷ [])
read-write_compact_u16_example = read-write_compact_u16 300 (9 ∷ []) (omega arith)

nonce_instructions_throw_example :
    (advance_nonce_account (key 1) (key 2) ≡ err invalid_base58_character)
    × (withdraw_nonce_account (key 1) (key 2) (key 3) 5 ≡ err invalid_base58_character)
    × (initialize_nonce_account (key 1) (key 2) ≡ err invalid_base58_character)
nonce_instructions_throw_example = nonce_instructions_throw (key 1) (key 2) (key 3) 5
