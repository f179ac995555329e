-- ===== src/Base58/Rounds.antt =====
-- One round of each loop of src/solana/base58.cpp, on the number that the digits stand for.
use solana_cpp_sdk.Base.{ℕ, zero, suc, ◌+◌, ◌*◌, ◌/◌, ◌^◌, ◌<◌, ◌≡◌, refl, arith}
use solana_cpp_sdk.Base.{List, [], ◌∷◌, ◌++◌, length, All, All-append, IsByte, ap}
use solana_cpp_sdk.Base.{u32}
use solana_cpp_sdk.Base58.{pass, emit, decode_digit}
use solana_cpp_sdk.Base58.Positional.{value}

abbrev pub IsDigit : ℕ → Type 0
IsDigit d = d < 58

-- Encoding: the digits are multiplied by 256, and the carry stays a byte.
pub encode_pass_bounds :
    (ds : List ℕ) (carry : ℕ)
    → All IsDigit ds
    → carry < 256
    → All IsDigit (pass 256 58 ds carry).0
      × ((pass 256 58 ds carry).1 < 256)
      × (length (pass 256 58 ds carry).0 ≡ length ds)
unfolding pass
encode_pass_bounds [] carry h c = (tt, c, refl)
encode_pass_bounds (d ∷ ds) carry h c =
    let (a, b, l) = encode_pass_bounds ds (u32 (carry + d * 256) / 58) h.1 (omega arith) in
    ((omega arith, a), b, ap suc l)

pub encode_pass-value :
    (ds : List ℕ) (carry : ℕ) (ys : List ℕ)
    → All IsDigit ds
    → carry < 256
    → value 58 ys ≡ (pass 256 58 ds carry).1
    → value 58 ((pass 256 58 ds carry).0 ++ ys) ≡ value 58 ds * 256 + carry
unfolding pass
encode_pass-value [] carry ys h c e = omega arith
encode_pass-value (d ∷ ds) carry ys h c e =
    omega (arith, encode_pass-value ds (u32 (carry + d * 256) / 58) ys h.1 (omega arith) e)

pub emit_58 : (k c : ℕ) → c < 58 ^ k → All IsDigit (emit k 58 c) × (value 58 (emit k 58 c) ≡ c)
unfolding emit
emit_58 zero c h = (tt, omega arith)
emit_58 (suc k) c h = ground (arith, emit_58 k (c / 58) (omega arith))

-- Decoding: the bytes are multiplied by 58, and the carry stays below 58.
decode_pass_bounds :
    (ds : List ℕ) (carry : ℕ)
    → All IsByte ds
    → carry < 58
    → All IsByte (pass 58 256 ds carry).0 × ((pass 58 256 ds carry).1 < 58)
unfolding pass
decode_pass_bounds [] carry h c = (tt, c)
decode_pass_bounds (d ∷ ds) carry h c =
    let (a, b) = decode_pass_bounds ds (u32 (carry + d * 58) / 256) h.1 (omega arith) in
    ((omega arith, a), b)

decode_pass-value :
    (ds : List ℕ) (carry : ℕ) (ys : List ℕ)
    → All IsByte ds
    → carry < 58
    → value 256 ys ≡ (pass 58 256 ds carry).1
    → value 256 ((pass 58 256 ds carry).0 ++ ys) ≡ value 256 ds * 58 + carry
unfolding pass
decode_pass-value [] carry ys h c e = omega arith
decode_pass-value (d ∷ ds) carry ys h c e =
    omega (arith, decode_pass-value ds (u32 (carry + d * 58) / 256) ys h.1 (omega arith) e)

emit_256 : (k c : ℕ) → c < 256 ^ k → All IsByte (emit k 256 c) × (value 256 (emit k 256 c) ≡ c)
unfolding emit
emit_256 zero c h = (tt, omega arith)
emit_256 (suc k) c h = ground (arith, emit_256 k (c / 256) (omega arith))

-- A round of decode.
pub decode_digit_lem :
    (result : List ℕ) (digit : ℕ)
    → All IsByte result
    → digit < 58
    → All IsByte (decode_digit result digit)
      × (value 256 (decode_digit result digit) ≡ value 256 result * 58 + digit)
unfolding decode_digit
decode_digit_lem result digit h d =
    let (bytes, small) = decode_pass_bounds result digit h d in
    let (more, left) = emit_256 4 (pass 58 256 result digit).1 (omega arith) in
    (
      All-append IsByte (pass 58 256 result digit).0 (emit 4 256 (pass 58 256 result digit).1) bytes
          more,
      decode_pass-value result digit (emit 4 256 (pass 58 256 result digit).1) h d left,
    )
