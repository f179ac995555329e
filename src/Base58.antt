-- ===== src/Base58.antt =====
-- src/solana/base58.cpp. A text is the list of its bytes. The vectors `digits` of encode and
-- `result` of decode hold a number with its lowest digit first.
pub mod Positional
pub mod Rounds
pub mod RoundTrip
pub mod Decoded
pub mod Capacity
use solana_cpp_sdk.Base.{ℕ, zero, suc, ◌+◌, ◌*◌, ◌/◌, ◌%◌, List, [], ◌∷◌, ◌++◌, Bool, true, false}
use solana_cpp_sdk.Base.{Option, none, some, ltb, leb, ◌==◌, if◌then◌else◌, u32, length, get_or}
use solana_cpp_sdk.Base.{
  replicate, rev, map, codes, Result, ok, err, ◌>>=◌, invalid_base58_character,
}
use solana_cpp_sdk.Base.{undefined_behaviour}

unfoldable pub alphabet : List ℕ
alphabet = codes "123456789ABCDEFGHJKLMNPQRSTUVWXYZabcdefghijkmnopqrstuvwxyz"

-- `none` is the table's -1.
unfoldable pub alphabet_map : List (Option ℕ)
alphabet_map =
    none
    ∷ none
    ∷ none
    ∷ none
    ∷ none
    ∷ none
    ∷ none
    ∷ none
    ∷ none
    ∷ none
    ∷ none
    ∷ none
    ∷ none
    ∷ none
    ∷ none
    ∷ none
    ∷ none
    ∷ none
    ∷ none
    ∷ none
    ∷ none
    ∷ none
    ∷ none
    ∷ none
    ∷ none
    ∷ none
    ∷ none
    ∷ none
    ∷ none
    ∷ none
    ∷ none
    ∷ none
    ∷ none
    ∷ none
    ∷ none
    ∷ none
    ∷ none
    ∷ none
    ∷ none
    ∷ none
    ∷ none
    ∷ none
    ∷ none
    ∷ none
    ∷ none
    ∷ none
    ∷ none
    ∷ none
    ∷ none
    ∷ some 0
    ∷ some 1
    ∷ some 2
    ∷ some 3
    ∷ some 4
    ∷ some 5
    ∷ some 6
    ∷ some 7
    ∷ some 8
    ∷ none
    ∷ none
    ∷ none
    ∷ none
    ∷ none
    ∷ none
    ∷ none
    ∷ some 9
    ∷ some 10
    ∷ some 11
    ∷ some 12
    ∷ some 13
    ∷ some 14
    ∷ some 15
    ∷ some 16
    ∷ none
    ∷ some 17
    ∷ some 18
    ∷ some 19
    ∷ some 20
    ∷ some 21
    ∷ none
    ∷ some 22
    ∷ some 23
    ∷ some 24
    ∷ some 25
    ∷ some 26
    ∷ some 27
    ∷ some 28
    ∷ some 29
    ∷ some 30
    ∷ some 31
    ∷ some 32
    ∷ none
    ∷ none
    ∷ none
    ∷ none
    ∷ none
    ∷ none
    ∷ some 33
    ∷ some 34
    ∷ some 35
    ∷ some 36
    ∷ some 37
    ∷ some 38
    ∷ some 39
    ∷ some 40
    ∷ some 41
    ∷ some 42
    ∷ some 43
    ∷ none
    ∷ some 44
    ∷ some 45
    ∷ some 46
    ∷ some 47
    ∷ some 48
    ∷ some 49
    ∷ some 50
    ∷ some 51
    ∷ some 52
    ∷ some 53
    ∷ some 54
    ∷ some 55
    ∷ some 56
    ∷ some 57
    ∷ none
    ∷ none
    ∷ none
    ∷ none
    ∷ none
    ∷ []

-- One pass over the digits: `carry += digit * mult; digit = carry % base; carry /= base`, in
-- `unsigned int`. It gives the new digits and the carry that is left.
unfoldable pub pass : ℕ → ℕ → List ℕ → ℕ → List ℕ × ℕ
pass mult base [] carry = ([], carry)
pass mult base (d ∷ ds) carry =
    let sum = u32 (carry + d * mult) in
    let rest = pass mult base ds (sum / base) in ((sum % base) ∷ rest.0, rest.1)

-- `while (carry > 0) { push carry % base; carry /= base; }`, with the rounds left. An
-- `unsigned int` is used up in 6 rounds of base 58.
unfoldable pub emit : ℕ → ℕ → ℕ → List ℕ
emit zero base carry = []
emit (suc rounds) base carry =
    let rest = emit rounds base (carry / base) in if ltb 0 carry then (carry % base) ∷ rest else []

-- The leading entries equal to `c`.
unfoldable pub count_leading : ℕ → List ℕ → ℕ
count_leading c [] = 0
count_leading c (b ∷ bs) = let rest = suc (count_leading c bs) in if b == c then rest else 0

-- A number with its highest digit first, without the zeros in front.
unfoldable pub drop_zeros : List ℕ → List ℕ
drop_zeros [] = []
drop_zeros (d ∷ ds) = let rest = drop_zeros ds in if d == 0 then rest else d ∷ ds

-- `digits` is the part of the vector below `digitslen`; `capacity` is the vector's size. A write
-- at or behind the size is undefined behaviour.
unfoldable pub encode_byte : ℕ → List ℕ → ℕ → Result (List ℕ)
encode_byte capacity digits byte =
    let p = pass 256 58 digits byte in
    let digits' = p.0 ++ emit 6 58 p.1 in
    if leb (length digits') capacity then ok digits' else err undefined_behaviour

unfoldable pub encode_loop : ℕ → List ℕ → List ℕ → Result (List ℕ)
encode_loop capacity digits [] = ok digits
encode_loop capacity digits (byte ∷ input) = do
  digits' ← encode_byte capacity digits byte
  encode_loop capacity digits' input

unfoldable pub encode_capacity : ℕ → ℕ
encode_capacity size = size * 137 / 100 + 1

unfoldable pub encode : List ℕ → Result (List ℕ)
encode [] = ok []
encode (b ∷ input) = do
  digits ← encode_loop (encode_capacity (length (b ∷ input))) (0 ∷ []) (b ∷ input)
  ok (
      replicate (count_leading 0 (b ∷ input)) 49
      ++ map (λ d. get_or alphabet d 0) (drop_zeros (rev digits)))

-- The digit of a character: a byte with its top bit set is refused before the table is read.
unfoldable pub digit_of : ℕ → Option ℕ
digit_of c = if leb 128 c then none else get_or alphabet_map c none

unfoldable pub decode_digit : List ℕ → ℕ → List ℕ
decode_digit result digit = let p = pass 58 256 result digit in p.0 ++ emit 4 256 p.1

unfoldable pub decode_loop : List ℕ → List ℕ → Result (List ℕ)
decode_loop result [] = ok result
decode_loop result (c ∷ input) = elim (digit_of c) [
  | none ↦ err invalid_base58_character
  | some digit ↦ decode_loop (decode_digit result digit) input
]

unfoldable pub decode : List ℕ → Result (List ℕ)
decode [] = ok []
decode (c ∷ input) = do
  result ← decode_loop (0 ∷ []) (c ∷ input)
  ok (replicate (count_leading 49 (c ∷ input)) 0 ++ drop_zeros (rev result))

-- `encodeString` and `decodeString`: a `std::string` and a `std::vector` of the same bytes.
unfoldable pub encode_string : List ℕ → Result (List ℕ)
encode_string input = encode input

unfoldable pub decode_string : List ℕ → Result (List ℕ)
decode_string input = decode input
