-- ===== src/Rpc/Ports.antt =====
-- src/solana/rpc_client.cpp: where `find` and `rfind` find a byte, and what `stoi` reads.
use solana_cpp_sdk.Base.{ℕ, ◌^◌, ◌<◌, List, [], ◌∷◌, ◌++◌, true, false, ◌≡◌, ◌≢◌}
use solana_cpp_sdk.Base.{refl, ap, sym, ◌∙◌, arith, All, length, none, some, ltb, ok}
use solana_cpp_sdk.Base.{◌==◌}
use mathlib.Core.Path.{subst}
use solana_cpp_sdk.Json.{is_digit}
use solana_cpp_sdk.Json.Access.{digits_value}
use solana_cpp_sdk.Json.Leaves.{decimal}
use solana_cpp_sdk.Base.{pos}
use solana_cpp_sdk.Rpc.{find, rfind, stoi}
use solana_cpp_sdk.Rpc.{parse_digits, parse_signed, starts_digit}
use solana_cpp_sdk.Rpc.{skip_c_space, is_c_space}
use solana_cpp_sdk.Rpc.Decimal.{
  decimal-to_string, to_string-is_digit, to_string_starts, digits_value-All,
}
use solana_cpp_sdk.Rpc.Http.{to_string}

abbrev pub Lacks : ℕ → List ℕ → Type 0
Lacks c s = All (λ d. d ≢ c) s

not_equal : (d c : ℕ) → d ≢ c → (d == c) ≡ false
not_equal d c h = ground arith

pub find-none : (c : ℕ) (s : List ℕ) → Lacks c s → find c s ≡ none
unfolding find
find-none c [] h = refl
find-none c (d ∷ s) h =
    let other : (d == c) ≡ false = not_equal d c h.0 in rw (other, find-none c s h.1) refl

pub find-append : (c : ℕ) (s t : List ℕ) → Lacks c s → find c (s ++ (c ∷ t)) ≡ some (length s)
unfolding find
find-append c [] t h = let same : (c == c) ≡ true = ground arith in rw same refl
find-append c (d ∷ s) t h =
    let other : (d == c) ≡ false = not_equal d c h.0 in rw (other, find-append c s t h.1) refl

pub rfind-none : (c : ℕ) (s : List ℕ) → Lacks c s → rfind c s ≡ none
unfolding rfind
rfind-none c [] h = refl
rfind-none c (d ∷ s) h =
    let other : (d == c) ≡ false = not_equal d c h.0 in rw (rfind-none c s h.1, other) refl

pub rfind-append : (c : ℕ) (s t : List ℕ) → Lacks c t → rfind c (s ++ (c ∷ t)) ≡ some (length s)
unfolding rfind
rfind-append c [] t h =
    let same : (c == c) ≡ true = ground arith in rw (rfind-none c t h, same) refl
rfind-append c (d ∷ s) t h = rw (rfind-append c s t h) refl

-- A number in decimal digits is read as an `int` below 2 ^ 31.
digit_no_space : (d : ℕ) → is_digit d ≡ true → is_c_space d ≡ false
unfolding is_digit is_c_space
digit_no_space d h = ground arith

digit_other : (d c : ℕ) → is_digit d ≡ true → c < 48 → (d == c) ≡ false
unfolding is_digit
digit_other d c h n = ground arith

stoi_digits :
    (d : ℕ) (ds : List ℕ) (n : ℕ)
    → is_digit d ≡ true
    → digits_value (d ∷ ds) 0 ≡ n
    → n < 2 ^ 31
    → stoi (d ∷ ds) ≡ ok (pos n)
unfolding stoi skip_c_space parse_signed parse_digits starts_digit
stoi_digits d ds n h e small =
    let no_space : is_c_space d ≡ false = digit_no_space d h in
    let no_minus : (d == 45) ≡ false = digit_other d 45 h (omega arith) in
    let no_plus : (d == 43) ≡ false = digit_other d 43 h (omega arith) in
    let fits : ltb n (2 ^ 31) ≡ true = ground arith in
    rw (no_space, no_minus, no_plus, h, e, fits) refl

pub stoi-to_string : (n : ℕ) → n < 2 ^ 31 → stoi (to_string n) ≡ ok (pos n)
stoi-to_string n small =
    let (d, ds, q) = to_string_starts n in
    let digits = subst (All (λ c. is_digit c ≡ true)) q (to_string-is_digit n) in
    let value = digits_value-All (d ∷ ds) 0 digits in
    let number = ap (λ s. decimal s 0) q in
    ap stoi q
    ∙ stoi_digits d ds n digits.0 (value ∙ (sym number ∙ decimal-to_string n (omega arith))) small
