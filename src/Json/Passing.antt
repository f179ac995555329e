-- ===== src/Json/Passing.antt =====
-- src/solana/json.cpp: `findMatchingBrace` on plain bytes, strings and brackets.
use solana_cpp_sdk.Base.{ℕ, suc, ◌+◌, List, [], ◌∷◌, ◌++◌, false, ◌≡◌, ◌≢◌, ◌⊎◌, inl, inr}
use solana_cpp_sdk.Base.{refl, ◌∙◌, length, All, arith, length-append, append_assoc}
use solana_cpp_sdk.Json.{find_matching_brace}
use solana_cpp_sdk.Json.Brackets.{
  reads_outside, enters, opens, closes, in_string-escape, in_string-key,
}
use solana_cpp_sdk.Json.Print.{}
use solana_cpp_sdk.Json.Print.{wrap, escape, last_or, IsKey}

abbrev pub AreBrackets : ℕ → ℕ → Type 0
AreBrackets o c = ((o ≡ 91) × (c ≡ 93)) ⊎ ((o ≡ 123) × (c ≡ 125))

-- Outside strings, the search reads the text and comes out as deep as before, behind a byte that is
-- no backslash.
abbrev pub Passes : List ℕ → Type 0
Passes s =
    (o c : ℕ)
    → AreBrackets o c
    → (d prev : ℕ) (rest : List ℕ) → prev ≢ 92
    → (last : ℕ) × ((last ≢ 92)
        × (find_matching_brace o c (suc d) false prev (s ++ rest)
            ≡ length s + find_matching_brace o c (suc d) false last rest))

pub apart : (o c : ℕ) → AreBrackets o c → (o ≢ 34) × ((c ≢ 34) × (o ≢ c))
apart o c (inl (e, f)) = ((λ i. omega arith), ((λ i. omega arith), (λ i. omega arith)))
apart o c (inr (e, f)) = ((λ i. omega arith), ((λ i. omega arith), (λ i. omega arith)))

pub no_backslash : (o c : ℕ) → AreBrackets o c → (o ≢ 92) × (c ≢ 92)
no_backslash o c (inl (e, f)) = ((λ i. omega arith), (λ i. omega arith))
no_backslash o c (inr (e, f)) = ((λ i. omega arith), (λ i. omega arith))

pub Passes-nil : Passes []
Passes-nil = λ o c b d prev rest p. (prev, (p, omega arith))

pub Passes-append : (s t : List ℕ) → Passes s → Passes t → Passes (s ++ t)
Passes-append s t hs ht = λ o c b d prev rest p.
    let (q, (q_ne, e)) = hs o c b d prev (t ++ rest) p in
    let (r, (r_ne, e')) = ht o c b d q rest q_ne in
    (r, (r_ne, rw (append_assoc s t rest) (omega (arith, e, e', length-append s t))))

abbrev pub IsPlain : ℕ → Type 0
IsPlain x = (x ≢ 34) × ((x ≢ 92) × ((x ≢ 91) × ((x ≢ 93) × ((x ≢ 123) × (x ≢ 125)))))

plain_outside : (o c x : ℕ) → AreBrackets o c → IsPlain x → (x ≢ o) × (x ≢ c)
plain_outside o c x (inl (e, f)) (n, (m, (n1, (n2, n3)))) = ((λ i. n1 (i ∙ e)), (λ i. n2 (i ∙ f)))
plain_outside o c x (inr (e, f)) (n, (m, (n1, (n2, (n3, n4))))) =
    ((λ i. n3 (i ∙ e)), (λ i. n4 (i ∙ f)))

pub Passes-plain : (s : List ℕ) → All IsPlain s → Passes s
Passes-plain [] h = Passes-nil
Passes-plain (x ∷ s) h = λ o c b d prev rest p.
    let (r, (r_ne, e)) = Passes-plain s h.1 o c b d x rest h.0.1.0 in
    let (n1, n2) = plain_outside o c x b h.0 in
    (r, (r_ne, omega (arith, e, reads_outside o c d prev x (s ++ rest) h.0.0 n1 n2)))

pub Passes-escape : (s : List ℕ) → last_or 0 s ≢ 92 → Passes (wrap 34 (escape s) 34)
unfolding wrap
Passes-escape s h = λ o c b d prev rest p.
    let (n1, (n2, n3)) = apart o c b in
    let inside = in_string-escape s o c d 34 0 rest n1 n2 (λ i. omega arith) h in
    let first = enters o c d prev (escape s ++ (34 ∷ rest)) p in
    (
      34,
      (
        (λ i. omega arith),
        rw (append_assoc (escape s) (34 ∷ []) rest)
            (omega (arith, first, inside, length-append (escape s) (34 ∷ []))),
      ),
    )

pub Passes-key : (s : List ℕ) → IsKey s → Passes (wrap 34 s 34)
unfolding wrap
Passes-key s h = λ o c b d prev rest p.
    let (n1, (n2, n3)) = apart o c b in
    let inside = in_string-key s o c d 34 rest n1 n2 (λ i. omega arith) h in
    let first = enters o c d prev (s ++ (34 ∷ rest)) p in
    (
      34,
      (
        (λ i. omega arith),
        rw (append_assoc s (34 ∷ []) rest)
            (omega (arith, first, inside, length-append s (34 ∷ []))),
      ),
    )

abbrev IsAside : ℕ → ℕ → ℕ → Type 0
IsAside o c x = (x ≢ 34) × ((x ≢ 92) × ((x ≢ o) × (x ≢ c)))

-- Brackets of the kind that is searched, and of the other kind.
Passes-same :
    (inner : List ℕ)
    → Passes inner
    → (o c : ℕ) → AreBrackets o c
    → (d prev : ℕ) (rest : List ℕ) → prev ≢ 92
    → (last : ℕ) × ((last ≢ 92)
        × (find_matching_brace o c (suc d) false prev (wrap o inner c ++ rest)
            ≡ length (wrap o inner c) + find_matching_brace o c (suc d) false last rest))
unfolding wrap
Passes-same inner h o c b d prev rest p =
    let (n1, (n2, n3)) = apart o c b in
    let (o_ne, c_ne) = no_backslash o c b in
    let (q, (q_ne, e)) = h o c b (suc d) o (c ∷ rest) o_ne in
    let first = opens o c d prev (inner ++ (c ∷ rest)) n1 in
    let last = closes o c d q rest n2 n3 in
    (
      c,
      (
        c_ne,
        rw (append_assoc inner (c ∷ []) rest)
            (omega (arith, first, e, last, length-append inner (c ∷ []))),
      ),
    )

Passes-other :
    (inner : List ℕ)
    → Passes inner
    → (o c : ℕ) → AreBrackets o c
    → (x y : ℕ) → IsAside o c x
    → IsAside o c y
    → (d prev : ℕ) (rest : List ℕ) → prev ≢ 92
    → (last : ℕ) × ((last ≢ 92)
        × (find_matching_brace o c (suc d) false prev (wrap x inner y ++ rest)
            ≡ length (wrap x inner y) + find_matching_brace o c (suc d) false last rest))
unfolding wrap
Passes-other inner h o c b x y (m1, (m3, (n1, n2))) (m2, (m4, (n3, n4))) d prev rest p =
    let (q, (q_ne, e)) = h o c b d x (y ∷ rest) m3 in
    let first = reads_outside o c d prev x (inner ++ (y ∷ rest)) m1 n1 n2 in
    let last = reads_outside o c d q y rest m2 n3 n4 in
    (
      y,
      (
        m4,
        rw (append_assoc inner (y ∷ []) rest)
            (omega (arith, first, e, last, length-append inner (y ∷ []))),
      ),
    )

pub Passes-array : (inner : List ℕ) → Passes inner → Passes (wrap 91 inner 93)
Passes-array inner h = λ o c b. elim b [
  | inl (e, f) ↦ rw (e, f) (Passes-same inner h 91 93 (inl (refl, refl)))
  | inr (e, f) ↦
      rw (e, f)
        (Passes-other inner h 123 125 (inr (refl, refl)) 91 93
          ((λ i. omega arith), ((λ i. omega arith), ((λ i. omega arith), (λ i. omega arith))))
          ((λ i. omega arith), ((λ i. omega arith), ((λ i. omega arith), (λ i. omega arith)))))
]

pub Passes-object : (inner : List ℕ) → Passes inner → Passes (wrap 123 inner 125)
Passes-object inner h = λ o c b. elim b [
  | inl (e, f) ↦
      rw (e, f)
        (Passes-other inner h 91 93 (inl (refl, refl)) 123 125
          ((λ i. omega arith), ((λ i. omega arith), ((λ i. omega arith), (λ i. omega arith))))
          ((λ i. omega arith), ((λ i. omega arith), ((λ i. omega arith), (λ i. omega arith)))))
  | inr (e, f) ↦ rw (e, f) (Passes-same inner h 123 125 (inr (refl, refl)))
]
