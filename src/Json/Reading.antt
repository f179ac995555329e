-- ===== src/Json/Reading.antt =====
-- src/solana/json.cpp: what `parseValue` reads from the text of a tree.
use solana_cpp_sdk.Base.{ℕ, suc, ◌+◌, ◌-◌, List, [], ◌∷◌, ◌++◌, true, false, ◌≡◌, ◌≢◌, inl, inr}
use solana_cpp_sdk.Base.{refl, ap, ◌∙◌, length, drop, All, arith, length-append, append_assoc}
use solana_cpp_sdk.Base.{◌||◌, ◌==◌}
use solana_cpp_sdk.Json.{find_matching_brace, is_digit, JsonType, value_of, scan_string, advance}
use solana_cpp_sdk.Json.{
  string_value, parse_string, parse_container, parse_number, has_word, parse_word,
}
use solana_cpp_sdk.Json.{
  parse_at, parse_value, skip_whitespace, skip_number, skip_digits, skip_char,
}
use solana_cpp_sdk.Json.{skip_fraction, skip_exponent, is_space}
use solana_cpp_sdk.Json.Brackets.{escape_char_cases, ends}
use solana_cpp_sdk.Json.Passing.{Passes, AreBrackets, apart, no_backslash}
use solana_cpp_sdk.Json.PassingTrees.{Passes-print_items, Passes-print_entries}
use solana_cpp_sdk.Json.Print.{Tree, nothing, flag, digits, quoted, listing, mapping}
use solana_cpp_sdk.Json.Print.{print, print_items}
use solana_cpp_sdk.Json.Print.{print_entries, wrap, escape, IsKey, view, type_of}
use solana_cpp_sdk.Json.Print.{IsWritten, flag_text, Ends, bool_of}

scan_plain :
    (y : ℕ) (t : List ℕ) → y ≢ 34 → y ≢ 92 → scan_string (y ∷ t) ≡ advance 1 (scan_string t)
unfolding scan_string
scan_plain y [] m n = ground arith
scan_plain y (x ∷ t) m n = ground arith

scan_string-escape :
    (s rest : List ℕ) → scan_string (escape s ++ (34 ∷ rest)) ≡ (length (escape s), 34 ∷ rest)
unfolding scan_string escape
scan_string-escape [] [] = refl
scan_string-escape [] (x ∷ rest) = refl
scan_string-escape (y ∷ s) rest = elim (escape_char_cases y) [
  | inl (z, (e, k)) ↦ rw (e, scan_string-escape s rest) (ap (λ i. (i, 34 ∷ rest)) (omega arith))
  | inr (e, (m, n)) ↦
      rw (e, scan_plain y (escape s ++ (34 ∷ rest)) m n, scan_string-escape s rest)
        (ap (λ i. (i, 34 ∷ rest)) (omega arith))
]

pub scan_string-key :
    (s rest : List ℕ) → IsKey s → scan_string (s ++ (34 ∷ rest)) ≡ (length s, 34 ∷ rest)
unfolding scan_string IsKey
scan_string-key [] [] h = refl
scan_string-key [] (x ∷ rest) h = refl
scan_string-key (y ∷ s) rest h =
    rw (scan_plain y (s ++ (34 ∷ rest)) h.0.0 h.0.1, scan_string-key s rest h.1)
      (ap (λ i. (i, 34 ∷ rest)) (omega arith))

found_behind :
    (o c : ℕ) (inner rest : List ℕ)
    → AreBrackets o c
    → Passes inner
    → find_matching_brace o c 1 false o (inner ++ (c ∷ rest)) ≡ length inner
found_behind o c inner rest b h =
    let (n1, (n2, n3)) = apart o c b in
    let (q, (q_ne, e)) = h o c b 0 o (c ∷ rest) (no_backslash o c b).0 in
    omega (arith, e, ends o c q rest n2 n3)

pub wrap-append :
    (o c : ℕ) (inner rest : List ℕ) → wrap o inner c ++ rest ≡ o ∷ (inner ++ (c ∷ rest))
unfolding wrap
wrap-append o c inner rest = ap (λ t. o ∷ t) (append_assoc inner (c ∷ []) rest)

pub length-wrap : (o c : ℕ) (inner : List ℕ) → length (wrap o inner c) ≡ 1 + length inner + 1
unfolding wrap
length-wrap o c inner = omega (arith, length-append inner (c ∷ []))

drop_behind : (c : ℕ) (inner rest : List ℕ) → drop (length inner + 1) (inner ++ (c ∷ rest)) ≡ rest
drop_behind c [] rest = refl
drop_behind c (x ∷ inner) rest =
    let e : suc (length inner) + 1 ≡ suc (length inner + 1) = omega arith in
    ap (λ n. drop n (x ∷ (inner ++ (c ∷ rest)))) e ∙ drop_behind c inner rest

parse_container-wrap :
    (type : JsonType) (o c : ℕ) (inner rest : List ℕ)
    → AreBrackets o c
    → Passes inner
    → parse_container type o c (inner ++ (c ∷ rest))
      ≡ (value_of type (wrap o inner c ++ rest) (length (wrap o inner c)) false, rest)
unfolding parse_container
parse_container-wrap type o c inner rest b h =
    rw
      (
        parse_container,
        found_behind o c inner rest b h,
        wrap-append o c inner rest,
        length-wrap o c inner,
        drop_behind c inner rest,
      )
      refl

parse_string-escape :
    (s rest : List ℕ)
    → parse_string (escape s ++ (34 ∷ rest)) ≡ (
      value_of JsonType.string
          (wrap 34 (escape s) 34 ++ rest)
          (length (wrap 34 (escape s) 34))
          false,
      rest,
    )
unfolding parse_string string_value
parse_string-escape s rest =
    rw (scan_string-escape s rest, wrap-append 34 34 (escape s) rest, length-wrap 34 34 (escape s))
      refl

skip_digits-append :
    (s rest : List ℕ) → All (λ c. is_digit c ≡ true) s → skip_digits (s ++ rest) ≡ skip_digits rest
unfolding skip_digits
skip_digits-append [] rest h = refl
skip_digits-append (c ∷ s) rest h = rw h.0 (skip_digits-append s rest h.1)

skip_tail-Ends : (s : List ℕ) → Ends s → skip_exponent (skip_fraction (skip_digits s)) ≡ s
unfolding skip_digits skip_fraction skip_exponent is_digit is_space Ends
skip_tail-Ends [] e = refl
skip_tail-Ends (c ∷ s) e =
    let no_digit : is_digit c ≡ false = ground arith in
    let no_point : (c == 46) ≡ false = ground arith in
    let no_exponent : (c == 101 || c == 69) ≡ false = ground arith in
    rw (no_digit, no_point, no_exponent) refl

skip_number-Ends :
    (d : ℕ) (ds rest : List ℕ)
    → is_digit d ≡ true
    → All (λ c. is_digit c ≡ true) ds
    → Ends rest
    → skip_number (d ∷ (ds ++ rest)) ≡ rest
unfolding skip_number skip_char is_digit
skip_number-Ends d ds rest h hs e =
    let unsigned : (d == 45) ≡ false = ground arith in
    rw (unsigned, skip_digits-append (d ∷ ds) rest (h, hs)) (skip_tail-Ends rest e)

-- A digit starts no other value.
parse_at-digit : (d : ℕ) (t : List ℕ) → is_digit d ≡ true → parse_at d t ≡ parse_number (d ∷ t)
unfolding parse_at has_word is_digit
parse_at-digit d t h =
    let n1 : (d == 34) ≡ false = ground arith in
    let n2 : (d == 123) ≡ false = ground arith in
    let n3 : (d == 91) ≡ false = ground arith in
    let n4 : (d == 116) ≡ false = ground arith in
    let n5 : (d == 102) ≡ false = ground arith in
    let n6 : (d == 110) ≡ false = ground arith in
    let n7 : (d == 45) ≡ false = ground arith in rw (n1, n2, n3, n4, n5, n6, n7, h) refl

pub skip_whitespace-no_space :
    (d : ℕ) (t : List ℕ) → is_space d ≡ false → skip_whitespace (d ∷ t) ≡ d ∷ t
unfolding skip_whitespace
skip_whitespace-no_space d t h = rw h refl

parse_value-digit :
    (d : ℕ) (t : List ℕ) → is_digit d ≡ true → parse_value (d ∷ t) ≡ parse_number (d ∷ t)
unfolding parse_value is_space is_digit
parse_value-digit d t h =
    rw (parse_value, skip_whitespace-no_space d t (ground arith)) (parse_at-digit d t h)

parse_number-print :
    (d : ℕ) (ds rest : List ℕ)
    → is_digit d ≡ true
    → All (λ c. is_digit c ≡ true) ds
    → Ends rest
    → parse_number (d ∷ (ds ++ rest))
      ≡ (value_of JsonType.number (d ∷ (ds ++ rest)) (length (d ∷ ds)) false, rest)
unfolding parse_number
parse_number-print d ds rest h hs e =
    let n : length (d ∷ (ds ++ rest)) - length rest ≡ length (d ∷ ds) =
      omega (arith, length-append ds rest) in
    rw (skip_number-Ends d ds rest h hs e, n) refl

-- parseValue reads the compact text of a JSON document as the value that stands for it and stops
-- right behind it, if what follows is nothing or starts with white space or a comma; numbers are
-- digits, keys have neither a quote nor a backslash, and no string ends in a backslash.
pub parse_value-print :
    (j : Tree) (rest : List ℕ)
    → IsWritten j
    → Ends rest
    → parse_value (print j ++ rest) ≡ (view j rest, rest)
unfolding parse_value parse_at print view type_of bool_of IsWritten skip_whitespace is_space
    parse_word flag_text has_word
parse_value-print nothing rest h e = refl
parse_value-print (flag true) rest h e = refl
parse_value-print (flag false) rest h e = refl
parse_value-print (digits d ds) rest h e =
    parse_value-digit d (ds ++ rest) h.0 ∙ parse_number-print d ds rest h.0 h.1 e
parse_value-print (quoted s) rest h e =
    ap parse_value (wrap-append 34 34 (escape s) rest) ∙ parse_string-escape s rest
parse_value-print (listing items) rest h e =
    ap parse_value (wrap-append 91 93 (print_items items) rest)
    ∙ parse_container-wrap JsonType.array 91 93 (print_items items) rest (inl (refl, refl))
        (Passes-print_items items h)
parse_value-print (mapping fields) rest h e =
    ap parse_value (wrap-append 123 125 (print_entries fields) rest)
    ∙ parse_container-wrap JsonType.object 123 125 (print_entries fields) rest (inr (refl, refl))
        (Passes-print_entries fields h)
