-- ===== src/Json/Endless.antt =====
-- src/solana/json.cpp: `arraySize` at a byte that starts no value.
use solana_cpp_sdk.Base.{ℕ, zero, suc, ◌+◌, List, ◌∷◌, Bool, false, ◌≡◌, ◌≢◌, refl, arith}
use solana_cpp_sdk.Base.{◌||◌, ◌==◌, none, ◌∙◌}
use solana_cpp_sdk.Json.{
  is_digit, is_space, parse_at, parse_value, value_of, has_word, skip_char, JsonType,
}
use solana_cpp_sdk.Json.Access.{count_values, skip_comma}
use solana_cpp_sdk.Json.Arrays.{count_values-round}
use solana_cpp_sdk.Json.Reading.{skip_whitespace-no_space}

unfoldable pub starts_value : ℕ → Bool
starts_value c =
    c == 34 || c == 123 || c == 91 || c == 116 || c == 102 || c == 110 || c == 45 || is_digit c

parse_at-unknown :
    (c : ℕ) (s : List ℕ)
    → starts_value c ≡ false
    → parse_at c s ≡ (value_of JsonType.null (c ∷ s) 0 false, c ∷ s)
unfolding starts_value parse_at has_word
parse_at-unknown c s h =
    let n1 : (c == 34) ≡ false = ground (arith, h) in
    let n2 : (c == 123) ≡ false = ground (arith, h) in
    let n3 : (c == 91) ≡ false = ground (arith, h) in
    let n4 : (c == 116) ≡ false = ground (arith, h) in
    let n5 : (c == 102) ≡ false = ground (arith, h) in
    let n6 : (c == 110) ≡ false = ground (arith, h) in
    let n7 : (c == 45) ≡ false = ground (arith, h) in
    let n8 : is_digit c ≡ false = ground (arith, h) in rw (n1, n2, n3, n4, n5, n6, n7, n8) refl

parse_value-unknown :
    (c : ℕ) (s : List ℕ)
    → is_space c ≡ false
    → starts_value c ≡ false
    → parse_value (c ∷ s) ≡ (value_of JsonType.null (c ∷ s) 0 false, c ∷ s)
unfolding parse_value
parse_value-unknown c s n h =
    rw (parse_value, skip_whitespace-no_space c s n) (parse_at-unknown c s h)

skip_comma-other : (c : ℕ) (s : List ℕ) → is_space c ≡ false → c ≢ 44 → skip_comma (c ∷ s) ≡ c ∷ s
unfolding skip_comma skip_char
skip_comma-other c s n m =
    let other : (c == 44) ≡ false = ground arith in
    rw (skip_comma, skip_whitespace-no_space c s n, other) refl

-- From a byte on that is neither white space nor a comma nor the first of a value, the loop of
-- arraySize does not end in any number of rounds, whatever follows and has been counted.
pub count_values-unknown :
    (fuel c : ℕ) (s : List ℕ) (count : ℕ)
    → is_space c ≡ false
    → c ≢ 44
    → starts_value c ≡ false
    → count_values fuel (c ∷ s) count ≡ none
unfolding count_values
count_values-unknown zero c s count n m h = refl
count_values-unknown (suc fuel) c s count n m h =
    let read = parse_value-unknown c s n h in
    count_values-round fuel c s (c ∷ s) count (value_of JsonType.null (c ∷ s) 0 false) n read
    ∙ rw (skip_comma-other c s n m) (count_values-unknown fuel c s (count + 1) n m h)
