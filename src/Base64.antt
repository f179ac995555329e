-- ===== src/Base64.antt =====
-- `base64Encode` of src/solana/transaction.cpp and `base64DecodeRpc` of src/solana/rpc_client.cpp.
pub mod Laws
use solana_cpp_sdk.Base.{ℕ, ◌+◌, ◌-◌, ◌*◌, ◌/◌, ◌%◌, ◌^◌, List, [], ◌∷◌, Option, none, some, get_or}
use solana_cpp_sdk.Base.{codes, ltb, leb, if◌then◌else◌, u8, u32, ◌≡◌, Result, ok, ◌>>=◌}

unfoldable pub base64_alphabet : List ℕ
base64_alphabet = codes "ABCDEFGHIJKLMNOPQRSTUVWXYZabcdefghijklmnopqrstuvwxyz0123456789+/"

-- `b64[(val >> shift) & 63]`
unfoldable pub sextet : ℕ → ℕ → ℕ
sextet val shift = get_or base64_alphabet (val / 2 ^ shift % 64) 0

-- The loop over groups of three bytes, with the two short groups at the end. The bytes that are
-- put together to `val` share no bit, and 61 is the padding `=`.
unfoldable pub base64_encode : List ℕ → List ℕ
base64_encode [] = []
base64_encode (a ∷ []) = let val = a * 2 ^ 16 in sextet val 18 ∷ sextet val 12 ∷ 61 ∷ 61 ∷ []
base64_encode (a ∷ b ∷ []) =
    let val = a * 2 ^ 16 + b * 2 ^ 8 in sextet val 18 ∷ sextet val 12 ∷ sextet val 6 ∷ 61 ∷ []
base64_encode (a ∷ b ∷ c ∷ bytes) =
    let val = a * 2 ^ 16 + b * 2 ^ 8 + c in
    sextet val 18 ∷ sextet val 12 ∷ sextet val 6 ∷ sextet val 0 ∷ base64_encode bytes

-- `none` is the table's -1.
unfoldable pub base64_table : List (Option ℕ)
base64_table =
    none
    ∷ none
    ∷ none
    ∷ none
    ∷ none
    ∷ none
    ∷ none
    ∷ none
    ∷ none
    ∷ none
    ∷ none
    ∷ none
    ∷ none
    ∷ none
    ∷ none
    ∷ none
    ∷ none
    ∷ none
    ∷ none
    ∷ none
    ∷ none
    ∷ none
    ∷ none
    ∷ none
    ∷ none
    ∷ none
    ∷ none
    ∷ none
    ∷ none
    ∷ none
    ∷ none
    ∷ none
    ∷ none
    ∷ none
    ∷ none
    ∷ none
    ∷ none
    ∷ none
    ∷ none
    ∷ none
    ∷ none
    ∷ none
    ∷ none
    ∷ some 62
    ∷ none
    ∷ none
    ∷ none
    ∷ some 63
    ∷ some 52
    ∷ some 53
    ∷ some 54
    ∷ some 55
    ∷ some 56
    ∷ some 57
    ∷ some 58
    ∷ some 59
    ∷ some 60
    ∷ some 61
    ∷ none
    ∷ none
    ∷ none
    ∷ none
    ∷ none
    ∷ none
    ∷ none
    ∷ some 0
    ∷ some 1
    ∷ some 2
    ∷ some 3
    ∷ some 4
    ∷ some 5
    ∷ some 6
    ∷ some 7
    ∷ some 8
    ∷ some 9
    ∷ some 10
    ∷ some 11
    ∷ some 12
    ∷ some 13
    ∷ some 14
    ∷ some 15
    ∷ some 16
    ∷ some 17
    ∷ some 18
    ∷ some 19
    ∷ some 20
    ∷ some 21
    ∷ some 22
    ∷ some 23
    ∷ some 24
    ∷ some 25
    ∷ none
    ∷ none
    ∷ none
    ∷ none
    ∷ none
    ∷ none
    ∷ some 26
    ∷ some 27
    ∷ some 28
    ∷ some 29
    ∷ some 30
    ∷ some 31
    ∷ some 32
    ∷ some 33
    ∷ some 34
    ∷ some 35
    ∷ some 36
    ∷ some 37
    ∷ some 38
    ∷ some 39
    ∷ some 40
    ∷ some 41
    ∷ some 42
    ∷ some 43
    ∷ some 44
    ∷ some 45
    ∷ some 46
    ∷ some 47
    ∷ some 48
    ∷ some 49
    ∷ some 50
    ∷ some 51
    ∷ none
    ∷ none
    ∷ none
    ∷ none
    ∷ none
    ∷ none
    ∷ none
    ∷ none
    ∷ none
    ∷ none
    ∷ none
    ∷ none
    ∷ none
    ∷ none
    ∷ none
    ∷ none
    ∷ none
    ∷ none
    ∷ none
    ∷ none
    ∷ none
    ∷ none
    ∷ none
    ∷ none
    ∷ none
    ∷ none
    ∷ none
    ∷ none
    ∷ none
    ∷ none
    ∷ none
    ∷ none
    ∷ none
    ∷ none
    ∷ none
    ∷ none
    ∷ none
    ∷ none
    ∷ none
    ∷ none
    ∷ none
    ∷ none
    ∷ none
    ∷ none
    ∷ none
    ∷ none
    ∷ none
    ∷ none
    ∷ none
    ∷ none
    ∷ none
    ∷ none
    ∷ none
    ∷ none
    ∷ none
    ∷ none
    ∷ none
    ∷ none
    ∷ none
    ∷ none
    ∷ none
    ∷ none
    ∷ none
    ∷ none
    ∷ none
    ∷ none
    ∷ none
    ∷ none
    ∷ none
    ∷ none
    ∷ none
    ∷ none
    ∷ none
    ∷ none
    ∷ none
    ∷ none
    ∷ none
    ∷ none
    ∷ none
    ∷ none
    ∷ none
    ∷ none
    ∷ none
    ∷ none
    ∷ none
    ∷ none
    ∷ none
    ∷ none
    ∷ none
    ∷ none
    ∷ none
    ∷ none
    ∷ none
    ∷ none
    ∷ none
    ∷ none
    ∷ none
    ∷ none
    ∷ none
    ∷ none
    ∷ none
    ∷ none
    ∷ none
    ∷ none
    ∷ none
    ∷ none
    ∷ none
    ∷ none
    ∷ none
    ∷ none
    ∷ none
    ∷ none
    ∷ none
    ∷ none
    ∷ none
    ∷ none
    ∷ none
    ∷ none
    ∷ none
    ∷ none
    ∷ none
    ∷ none
    ∷ none
    ∷ none
    ∷ none
    ∷ none
    ∷ none
    ∷ none
    ∷ none
    ∷ none
    ∷ none
    ∷ none
    ∷ none
    ∷ []

-- What compiled code does at `val << 6`, `val` the bit pattern of an `int`, where the result does not
-- fit into an `unsigned int`: C++17 leaves it undefined.
pub record Compiler : Type 0 where
  pub overflowed_shift : ℕ → Result ℕ

-- GCC's manual: it does not use the latitude that the standard gives it for signed shifts.
abbrev pub IsWrapping : Compiler → Type 0
IsWrapping compiler = (val : ℕ) → compiler.overflowed_shift val ≡ ok (u32 (val * 2 ^ 6))

-- `val << 6`; the pattern of a negative number is 2 ^ 31 or more, and so it does not fit either.
unfoldable pub shift_six : Compiler → ℕ → Result ℕ
shift_six compiler val =
    if ltb (val * 2 ^ 6) (2 ^ 32) then ok (val * 2 ^ 6) else compiler.overflowed_shift val

-- `bits` is `valb + 8`, so that it starts at 0; after a push it is below 8, and only the 14 lowest
-- bits of `val` are ever read. The six lowest bits of the shifted value are 0.
unfoldable pub base64_decode_loop : Compiler → ℕ → ℕ → List ℕ → Result (List ℕ)
base64_decode_loop compiler val bits [] = ok []
base64_decode_loop compiler val bits (c ∷ text) = elim (get_or base64_table c none) [
  | none ↦ ok []
  | some t ↦ shift_six compiler val >>= λ shifted.
      let val' = u32 (shifted + t) in
      let bits' = bits + 6 in
      let pushed = base64_decode_loop compiler val' (bits' - 8) text >>= λ out.
      ok (u8 (val' / 2 ^ (bits' - 8)) ∷ out) in
      let waits = base64_decode_loop compiler val' bits' text in
      if leb 8 bits' then pushed else waits
]

unfoldable pub base64_decode : Compiler → List ℕ → Result (List ℕ)
base64_decode compiler text = base64_decode_loop compiler 0 0 text
