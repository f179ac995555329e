-- ===== src/Json/Brackets.antt =====
-- src/solana/json.cpp: `findMatchingBrace`, one byte at a time, and in strings.
use solana_cpp_sdk.Base.{ℕ, suc, ◌+◌, List, [], ◌∷◌, ◌++◌, true, false, ◌≡◌, ◌≢◌, ◌⊎◌, inl, inr}
use solana_cpp_sdk.Base.{refl, length, arith}
use solana_cpp_sdk.Json.{find_matching_brace, next_in_string, next_depth}
use solana_cpp_sdk.Base.{Bool-cases, ◌==◌}
use solana_cpp_sdk.Json.Access.{unescape_char}
use solana_cpp_sdk.Json.Print.{escape, escape_char, last_or, IsKey}

-- One byte of the search.
pub reads_outside :
    (o c d prev x : ℕ) (rest : List ℕ)
    → x ≢ 34
    → x ≢ o
    → x ≢ c
    → find_matching_brace o c (suc d) false prev (x ∷ rest)
      ≡ suc (find_matching_brace o c (suc d) false x rest)
unfolding find_matching_brace next_in_string next_depth
reads_outside o c d prev x rest n1 n2 n3 = ground arith

reads_inside :
    (o c d prev x : ℕ) (rest : List ℕ)
    → (x ≡ 34 → prev ≡ 92)
    → find_matching_brace o c (suc d) true prev (x ∷ rest)
      ≡ suc (find_matching_brace o c (suc d) true x rest)
unfolding find_matching_brace next_in_string next_depth
reads_inside o c d prev x rest n = ground arith

pub enters :
    (o c d prev : ℕ) (rest : List ℕ)
    → prev ≢ 92
    → find_matching_brace o c (suc d) false prev (34 ∷ rest)
      ≡ suc (find_matching_brace o c (suc d) true 34 rest)
unfolding find_matching_brace next_in_string next_depth
enters o c d prev rest n = ground arith

leaves :
    (o c d prev : ℕ) (rest : List ℕ)
    → prev ≢ 92
    → o ≢ 34
    → c ≢ 34
    → find_matching_brace o c (suc d) true prev (34 ∷ rest)
      ≡ suc (find_matching_brace o c (suc d) false 34 rest)
unfolding find_matching_brace next_in_string next_depth
leaves o c d prev rest n n1 n2 = ground arith

pub opens :
    (o c d prev : ℕ) (rest : List ℕ)
    → o ≢ 34
    → find_matching_brace o c (suc d) false prev (o ∷ rest)
      ≡ suc (find_matching_brace o c (suc (suc d)) false o rest)
unfolding find_matching_brace next_in_string next_depth
opens o c d prev rest n = ground arith

pub closes :
    (o c d prev : ℕ) (rest : List ℕ)
    → c ≢ 34
    → o ≢ c
    → find_matching_brace o c (suc (suc d)) false prev (c ∷ rest)
      ≡ suc (find_matching_brace o c (suc d) false c rest)
unfolding find_matching_brace next_in_string next_depth
closes o c d prev rest n n1 = ground arith

pub ends :
    (o c prev : ℕ) (rest : List ℕ)
    → c ≢ 34
    → o ≢ c
    → find_matching_brace o c 1 false prev (c ∷ rest) ≡ 0
unfolding find_matching_brace next_in_string next_depth
ends o c prev rest n n1 = ground arith

-- A byte is escaped by a backslash and the byte that it is read back from, or left alone.
pub escape_char_cases :
    (y : ℕ)
    → ((z : ℕ) × ((escape_char y ≡ 92 ∷ z ∷ []) × ((z ≡ 92 → y ≡ 92) × (unescape_char z ≡ y))))
      ⊎ ((escape_char y ≡ y ∷ []) × ((y ≢ 34) × (y ≢ 92)))
unfolding escape_char unescape_char
escape_char_cases y = elim (Bool-cases (y == 34)) [
  | inl e ↦ inl (34, (ground arith, (λ i. absurd (omega arith), ground arith)))
  | inr e ↦ elim (Bool-cases (y == 92)) [
    | inl f ↦ inl (92, (ground arith, (λ i. ground arith, ground arith)))
    | inr f ↦ elim (Bool-cases (y == 10)) [
      | inl g ↦ inl (110, (ground arith, (λ i. absurd (omega arith), ground arith)))
      | inr g ↦ elim (Bool-cases (y == 13)) [
        | inl k ↦ inl (114, (ground arith, (λ i. absurd (omega arith), ground arith)))
        | inr k ↦ elim (Bool-cases (y == 9)) [
          | inl m ↦ inl (116, (ground arith, (λ i. absurd (omega arith), ground arith)))
          | inr m ↦ inr (ground arith, ((λ i. ground arith), (λ i. ground arith)))
        ]
      ]
    ]
  ]
]

-- In a string, the escaped text is read up to its closing quote.
pub in_string-escape :
    (s : List ℕ) (o c d prev x : ℕ) (rest : List ℕ)
    → o ≢ 34
    → c ≢ 34
    → (prev ≡ 92 → x ≡ 92)
    → last_or x s ≢ 92
    → find_matching_brace o c (suc d) true prev (escape s ++ (34 ∷ rest))
      ≡ length (escape s) + suc (find_matching_brace o c (suc d) false 34 rest)
unfolding escape escape_char last_or
in_string-escape [] o c d prev x rest n1 n2 p h =
    omega (arith, leaves o c d prev rest (λ e. h (p e)) n1 n2)
in_string-escape (y ∷ s) o c d prev x rest n1 n2 p h = elim (escape_char_cases y) [
  | inl (z, (e, (k, r))) ↦
      let tail = in_string-escape s o c d z y rest n1 n2 k h in
      let first =
        reads_inside o c d prev 92 (z ∷ (escape s ++ (34 ∷ rest))) (λ q. absurd (omega arith)) in
      let second = reads_inside o c d 92 z (escape s ++ (34 ∷ rest)) (λ q. refl) in
      rw e (omega (arith, first, second, tail))
  | inr (e, (k, q)) ↦
      let tail = in_string-escape s o c d y y rest n1 n2 (λ i. i) h in
      let first = reads_inside o c d prev y (escape s ++ (34 ∷ rest)) (λ i. absurd (k i)) in
      rw e (omega (arith, first, tail))
]

pub in_string-key :
    (s : List ℕ) (o c d prev : ℕ) (rest : List ℕ)
    → o ≢ 34
    → c ≢ 34
    → prev ≢ 92
    → IsKey s
    → find_matching_brace o c (suc d) true prev (s ++ (34 ∷ rest))
      ≡ length s + suc (find_matching_brace o c (suc d) false 34 rest)
unfolding IsKey
in_string-key [] o c d prev rest n1 n2 p h = omega (arith, leaves o c d prev rest p n1 n2)
in_string-key (y ∷ s) o c d prev rest n1 n2 p h =
    let first = reads_inside o c d prev y (s ++ (34 ∷ rest)) (λ e. absurd (h.0.0 e)) in
    omega (arith, first, in_string-key s o c d y rest n1 n2 h.0.1 h.1)
