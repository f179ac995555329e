-- ===== src/Json/Numbers.antt =====
-- src/solana/json.cpp: the accessors that the rest of the SDK does not call, and
-- `parseStringContent`.
use solana_cpp_sdk.Base.{ℕ, ◌-◌, ◌^◌, ◌≡◌, refl, ap, List, [], ◌∷◌, ◌++◌, false, not}
use solana_cpp_sdk.Base.{◌||◌, ltb, leb, ◌==◌, if◌then◌else◌, take, ℤ, pos, negate, ◌≢◌, ◌∙◌}
use solana_cpp_sdk.Base.{Bool-cases, inl, inr, ==_iff, append_assoc}
use solana_cpp_sdk.Json.{JsonValue}
use solana_cpp_sdk.Json.Access.{is_number, digits_value}

-- `strtoll` in base 10, on a text that starts with a digit or a minus: digits up to the first other
-- byte, and the nearest `int64_t` when they overflow.
unfoldable pub strtoll : List ℕ → ℤ
strtoll [] = pos 0
strtoll (c ∷ s) =
    let below = digits_value s 0 in
    let above = digits_value (c ∷ s) 0 in
    if c == 45
    then negate (if leb below (2 ^ 63) then below else 2 ^ 63)
    else pos (if ltb above (2 ^ 63) then above else 2 ^ 63 - 1)

unfoldable pub as_int : JsonValue → ℤ
as_int v = if not (is_number v) || not v.has_src then pos 0 else strtoll v.text

-- The type `double`, its zero and the function `strtod` are parameters.
unfoldable pub as_double : {D : Type 0} → D → (List ℕ → D) → JsonValue → D
as_double zero_double strtod v =
    if not (is_number v) || not v.has_src then zero_double else strtod v.text

-- An empty piece has an end that is not behind its start.
unfoldable pub raw : JsonValue → List ℕ
raw v = if not v.has_src || v.size == 0 then [] else take v.size v.text

-- What the `switch` of `parseStringContent` adds for the byte behind a backslash.
unfoldable pub decode_escape : ℕ → ℕ
decode_escape c =
    if c == 110
    then 10
    else if c == 114
    then 13
    else if c == 116
    then 9
    else if c == 98
    then 8
    else if c == 102
    then 12
    else c

abbrev pub push : ℕ → List ℕ × List ℕ → List ℕ × List ℕ
push c read = (c ∷ read.0, read.1)

-- The content, and the bytes behind the closing quote.
unfoldable pub parse_string_content : List ℕ → List ℕ × List ℕ
parse_string_content [] = ([], [])
parse_string_content (c ∷ []) = if c == 34 then ([], []) else (c ∷ [], [])
parse_string_content (c ∷ d ∷ s) =
    let escaped = push (decode_escape d) (parse_string_content s) in
    let plain = push c (parse_string_content (d ∷ s)) in
    if c == 34 then ([], d ∷ s) else if c == 92 then escaped else plain

-- The byte written for the parser: an escape for a quote, a backslash and five control characters.
abbrev escape : ℕ → List ℕ
escape c =
    if c == 10
    then 92 ∷ 110 ∷ []
    else if c == 13
    then 92 ∷ 114 ∷ []
    else if c == 9
    then 92 ∷ 116 ∷ []
    else if c == 8
    then 92 ∷ 98 ∷ []
    else if c == 12
    then 92 ∷ 102 ∷ []
    else if c == 34
    then 92 ∷ 34 ∷ []
    else if c == 92
    then 92 ∷ 92 ∷ []
    else c ∷ []

abbrev escape_all : List ℕ → List ℕ
escape_all [] = []
escape_all (c ∷ s) = escape c ++ escape_all s

plain_step :
    (c : ℕ) (tail : List ℕ)
    → tail ≢ []
    → (c == 34) ≡ false
    → (c == 92) ≡ false
    → parse_string_content (c ∷ tail) ≡ push c (parse_string_content tail)
unfolding parse_string_content
plain_step c [] some_ quote slash = absurd (some_ refl)
plain_step c (d ∷ tail) some_ quote slash = rw (parse_string_content, quote, slash) refl

escape_step :
    (c : ℕ) (tail : List ℕ)
    → tail ≢ []
    → parse_string_content (escape c ++ tail) ≡ push c (parse_string_content tail)
unfolding parse_string_content decode_escape
escape_step c tail some_ = elim (Bool-cases (c == 10)) [
  | inl e ↦ let same : c ≡ 10 = (==_iff c 10).0 e in rw same refl
  | inr n10 ↦ elim (Bool-cases (c == 13)) [
    | inl e ↦ let same : c ≡ 13 = (==_iff c 13).0 e in rw same refl
    | inr n13 ↦ elim (Bool-cases (c == 9)) [
      | inl e ↦ let same : c ≡ 9 = (==_iff c 9).0 e in rw same refl
      | inr n9 ↦ elim (Bool-cases (c == 8)) [
        | inl e ↦ let same : c ≡ 8 = (==_iff c 8).0 e in rw same refl
        | inr n8 ↦ elim (Bool-cases (c == 12)) [
          | inl e ↦ let same : c ≡ 12 = (==_iff c 12).0 e in rw same refl
          | inr n12 ↦ elim (Bool-cases (c == 34)) [
            | inl e ↦ let same : c ≡ 34 = (==_iff c 34).0 e in rw same refl
            | inr n34 ↦ elim (Bool-cases (c == 92)) [
              | inl e ↦ let same : c ≡ 92 = (==_iff c 92).0 e in rw same refl
              | inr n92 ↦ rw (n10, n13, n9, n8, n12, n34, n92) (plain_step c tail some_ n34 n92)
            ]
          ]
        ]
      ]
    ]
  ]
]

closed : (rest : List ℕ) → parse_string_content (34 ∷ rest) ≡ ([], rest)
unfolding parse_string_content
closed [] = refl
closed (c ∷ rest) = refl

not_empty : (text rest : List ℕ) → text ++ (34 ∷ rest) ≢ []
not_empty [] rest = λ e. cc
not_empty (c ∷ text) rest = λ e. cc

-- parseStringContent reads an escaped text back, and stops behind its quote.
parse_string_content-escape_all :
    (text rest : List ℕ) → parse_string_content (escape_all text ++ (34 ∷ rest)) ≡ (text, rest)
parse_string_content-escape_all [] rest = closed rest
parse_string_content-escape_all (c ∷ text) rest =
    rw (append_assoc (escape c) (escape_all text) (34 ∷ rest)) (
      escape_step c (escape_all text ++ (34 ∷ rest)) (not_empty (escape_all text) rest)
      ∙ ap (push c) (parse_string_content-escape_all text rest))
