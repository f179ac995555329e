-- ===== src/Json/Progress.antt =====
-- src/solana/json.cpp: how far each step of the parser and of the loops moves in the text.
use solana_cpp_sdk.Base.{ℕ, zero, suc, ◌+◌, ◌<◌, ◌≤◌, List, [], ◌∷◌, false, ◌≡◌}
use solana_cpp_sdk.Base.{refl, length, drop, take, arith, none, some, Option-cases, inl, inr}
use solana_cpp_sdk.Base.{◌&&◌, ◌==◌, bytes_eq, if◌then◌else◌, ap, sym, ◌∙◌}
use solana_cpp_sdk.Json.{JsonValue, null_value, skip_whitespace, skip_char}
use solana_cpp_sdk.Json.{
  scan_string, string_value, parse_string, parse_container, parse_number, parse_word,
}
use solana_cpp_sdk.Json.{parse_at, parse_value, skip_number, skip_digits, skip_fraction, skip_sign}
use solana_cpp_sdk.Json.{skip_exponent, find_matching_brace}
use solana_cpp_sdk.Json.Lookup.{some_if}
use solana_cpp_sdk.Json.Access.{or_null, skip_quote, entry_value, skip_comma, find_key}

abbrev Shorter : List ℕ → List ℕ → Type 0
Shorter t s = length t ≤ length s

drop-Shorter : (n : ℕ) (s : List ℕ) → Shorter (drop n s) s
drop-Shorter zero s = omega arith
drop-Shorter (suc n) [] = omega arith
drop-Shorter (suc n) (c ∷ s) = omega (arith, drop-Shorter n s)

skip_whitespace-Shorter : (s : List ℕ) → Shorter (skip_whitespace s) s
unfolding skip_whitespace
skip_whitespace-Shorter [] = omega arith
skip_whitespace-Shorter (c ∷ s) = ground (arith, skip_whitespace-Shorter s)

skip_char-Shorter : (c : ℕ) (s : List ℕ) → Shorter (skip_char c s) s
unfolding skip_char
skip_char-Shorter c [] = omega arith
skip_char-Shorter c (d ∷ s) = ground arith

skip_digits-Shorter : (s : List ℕ) → Shorter (skip_digits s) s
unfolding skip_digits
skip_digits-Shorter [] = omega arith
skip_digits-Shorter (c ∷ s) = ground (arith, skip_digits-Shorter s)

skip_fraction-Shorter : (s : List ℕ) → Shorter (skip_fraction s) s
unfolding skip_fraction
skip_fraction-Shorter [] = omega arith
skip_fraction-Shorter (c ∷ s) = ground (arith, skip_digits-Shorter s)

skip_sign-Shorter : (s : List ℕ) → Shorter (skip_sign s) s
unfolding skip_sign
skip_sign-Shorter [] = omega arith
skip_sign-Shorter (c ∷ s) = ground arith

skip_exponent-Shorter : (s : List ℕ) → Shorter (skip_exponent s) s
unfolding skip_exponent
skip_exponent-Shorter [] = omega arith
skip_exponent-Shorter (c ∷ s) =
    ground (arith, skip_digits-Shorter (skip_sign s), skip_sign-Shorter s)

skip_number-Shorter : (s : List ℕ) → Shorter (skip_number s) s
unfolding skip_number
skip_number-Shorter s =
    let a = skip_char 45 s in
    let b = skip_digits a in
    omega (
      arith,
      skip_char-Shorter 45 s,
      skip_digits-Shorter a,
      skip_fraction-Shorter b,
      skip_exponent-Shorter (skip_fraction b),
    )

scan_string-Shorter : (s : List ℕ) → Shorter (scan_string s).1 s
unfolding scan_string
scan_string-Shorter [] = omega arith
scan_string-Shorter (c ∷ []) = ground arith
scan_string-Shorter (c ∷ d ∷ s) = ground (arith, scan_string-Shorter s, scan_string-Shorter (d ∷ s))

string_value-Shorter :
    (s : List ℕ) (count : ℕ) (rest : List ℕ) → Shorter (string_value s count rest).1 rest
unfolding string_value
string_value-Shorter s count [] = omega arith
string_value-Shorter s count (q ∷ rest) = omega arith

parse_string-Shorter : (s : List ℕ) → Shorter (parse_string s).1 s
unfolding parse_string
parse_string-Shorter s =
    let (count, rest) = scan_string s in
    omega (arith, string_value-Shorter s count rest, scan_string-Shorter s)

-- What `parseValue` leaves is no longer than its text, from its first byte on.
parse_at-Shorter : (c : ℕ) (s : List ℕ) → Shorter (parse_at c s).1 (c ∷ s)
unfolding parse_at parse_container parse_number parse_word
parse_at-Shorter c s = ground (
  arith,
  parse_string-Shorter s,
  skip_number-Shorter (c ∷ s),
  drop-Shorter 3 s,
  drop-Shorter 4 s,
  drop-Shorter (find_matching_brace 123 125 1 false 123 s + 1) s,
  drop-Shorter (find_matching_brace 91 93 1 false 91 s + 1) s,
)

parse_skipped-Shorter : (s t : List ℕ) → skip_whitespace s ≡ t → Shorter (parse_value s).1 t
unfolding parse_value
parse_skipped-Shorter s [] e = rw (parse_value, e) (omega arith)
parse_skipped-Shorter s (c ∷ t) e = rw (parse_value, e) (parse_at-Shorter c t)

parse_value-Shorter : (s : List ℕ) → Shorter (parse_value s).1 s
parse_value-Shorter s =
    omega (arith, parse_skipped-Shorter s (skip_whitespace s) refl, skip_whitespace-Shorter s)

skip_comma-Shorter : (s : List ℕ) → Shorter (skip_comma s) s
unfolding skip_comma
skip_comma-Shorter s =
    omega (arith, skip_whitespace-Shorter s, skip_char-Shorter 44 (skip_whitespace s))

entry_value-Shorter : (s : List ℕ) → Shorter (entry_value s).1 s
unfolding entry_value
entry_value-Shorter s =
    let a = drop 1 s in
    let b = skip_whitespace a in
    omega (
      arith,
      drop-Shorter 1 s,
      skip_whitespace-Shorter a,
      skip_char-Shorter 58 b,
      parse_value-Shorter (skip_char 58 b),
    )

skip_quote-lt : (s t : List ℕ) → skip_quote s ≡ some t → length t < length s
unfolding skip_quote
skip_quote-lt [] t h = cc
skip_quote-lt (c ∷ s) t h = ground arith

find_key-stops :
    (more : ℕ) (key s : List ℕ)
    → skip_quote (skip_whitespace s) ≡ none
    → 0 < more
    → find_key more key s ≡ some null_value
unfolding find_key
find_key-stops zero key s e n = absurd (omega arith)
find_key-stops (suc more) key s e n = rw (find_key, e) refl

-- The text that a round leaves to the next one.
behind_entry : List ℕ → List ℕ
behind_entry t = skip_comma (entry_value (scan_string t).1).1

behind_entry-lt :
    (s t : List ℕ) → skip_quote (skip_whitespace s) ≡ some t → length (behind_entry t) < length s
unfolding behind_entry
behind_entry-lt s t e =
    let rest = (scan_string t).1 in
    omega (
      arith,
      skip_quote-lt (skip_whitespace s) t e,
      skip_whitespace-Shorter s,
      scan_string-Shorter t,
      entry_value-Shorter rest,
      skip_comma-Shorter (entry_value rest).1,
    )

find_key-goes_on :
    (more fuel : ℕ) (key s t : List ℕ) (v : JsonValue)
    → skip_quote (skip_whitespace s) ≡ some t
    → suc fuel ≤ more
    → ((n : ℕ) → fuel ≤ n → find_key n key (behind_entry t) ≡ some v)
    → find_key more key s
      ≡ some (
          if (scan_string t).0 == length key && bytes_eq (take (scan_string t).0 t) key
          then (entry_value (scan_string t).1).0
          else v)
unfolding find_key behind_entry
find_key-goes_on zero fuel key s t v e n h = absurd (omega arith)
find_key-goes_on (suc more) fuel key s t v e n h =
    rw (find_key, e, h more (omega arith)) (some_if _ _ _)

find_key-returns :
    (fuel : ℕ) (key s : List ℕ)
    → length s < fuel
    → (v : JsonValue) × ((more : ℕ) → fuel ≤ more → find_key more key s ≡ some v)
unfolding find_key
find_key-returns zero key s h = absurd (omega arith)
find_key-returns (suc fuel) key s h = elim (Option-cases (skip_quote (skip_whitespace s))) [
  | inl e ↦ (null_value, λ more n. find_key-stops more key s e (omega arith))
  | inr (t, e) ↦
      let (v, h') =
        find_key-returns fuel key (behind_entry t) (omega (arith, behind_entry-lt s t e)) in
      (_, λ more n. find_key-goes_on more fuel key s t v e n h')
]

-- The loop of the operator with a key ends on every text: with more rounds than the text has
-- bytes it gives the value that it gives with one round more than bytes, which is what the
-- operator takes.
pub find_key-or_null :
    (fuel : ℕ) (key s : List ℕ)
    → length s < fuel
    → find_key fuel key s ≡ some (or_null (find_key (suc (length s)) key s))
unfolding or_null
find_key-or_null fuel key s h =
    let (v, returns) = find_key-returns (suc (length s)) key s (omega arith) in
    returns fuel (omega (arith, h))
    ∙ ap (λ o. some (or_null o)) (sym (returns (suc (length s)) (omega arith)))
