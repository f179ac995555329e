-- ===== src/Base58/RoundTrip.antt =====
-- Decoding what encode wrote, and the characters that decode refuses.
use solana_cpp_sdk.Base.{ℕ, zero, suc, ◌<◌, ◌≡◌, refl, arith, sym, ap, ap₂, ◌∙◌}
use solana_cpp_sdk.Base.{List, [], ◌∷◌, ◌++◌, rev, replicate, map, All, All-append, IsByte}
use solana_cpp_sdk.Base.{Option, none, some, get_or, Bool, true, false, ok, err, ◌>>=◌, ◌==◌}
use solana_cpp_sdk.Base.{inl, inr, agree_below, agree_below_sound}
use mathlib.Core.List.{map-append}
use solana_cpp_sdk.Base.{get_elem?, Option-cases, invalid_base58_character}
use solana_cpp_sdk.Base58.{
  alphabet, alphabet_map, digit_of, count_leading, drop_zeros, encode, decode,
}
use solana_cpp_sdk.Base58.{decode_loop, decode_digit}
use solana_cpp_sdk.Base58.Positional.{value, be_value, be_value-rev, be_value-zeros}
use solana_cpp_sdk.Base58.Positional.{be_value-drop_zeros, replicate-drop_zeros, drop_zeros_unique}
use solana_cpp_sdk.Base58.Positional.{rev-rev}
use solana_cpp_sdk.Base58.Rounds.{IsDigit, decode_digit_lem}
use solana_cpp_sdk.Base58.Capacity.{encode_digits}

abbrev as_number : Option ℕ → ℕ
as_number none = 0
as_number (some d) = suc d

some_of_number : (o : Option ℕ) (d : ℕ) → as_number o ≡ suc d → o ≡ some d
some_of_number none d h = absurd (omega arith)
some_of_number (some c) d h = ap some (omega arith)

-- The table reads back each character of the alphabet.
digit_of-character : (d : ℕ) → d < 58 → digit_of (get_or alphabet d 0) ≡ some d
unfolding agree_below digit_of alphabet alphabet_map
digit_of-character d h =
    some_of_number _ d
      (agree_below_sound (λ d. as_number (digit_of (get_or alphabet d 0))) (λ d. suc d) 58 d refl h)

abbrev bit : Bool → ℕ
bit true = 1
bit false = 0

bit-injective : (a b : Bool) → bit a ≡ bit b → a ≡ b
bit-injective a b h = ground arith

-- Only the digit 0 is written as `1`.
one_is_zero : (d : ℕ) → d < 58 → (get_or alphabet d 0 == 49) ≡ (d == 0)
unfolding agree_below alphabet
one_is_zero d h =
    bit-injective _ _
      (agree_below_sound (λ d. bit (get_or alphabet d 0 == 49)) (λ d. bit (d == 0)) 58 d refl h)

decode_loop-digits :
    (ds result : List ℕ)
    → All IsDigit ds
    → All IsByte result
    → (r : List ℕ) × (decode_loop result (map (λ d. get_or alphabet d 0) ds) ≡ ok r)
      × All IsByte r
      × (value 256 r ≡ be_value 58 (value 256 result) ds)
unfolding decode_loop
decode_loop-digits [] result hd hb = (result, refl, hb, refl)
decode_loop-digits (d ∷ ds) result hd hb =
    let (bytes, means) = decode_digit_lem result d hb hd.0 in
    let (r, e, br, m) = decode_loop-digits ds (decode_digit result d) hd.1 bytes in
    (r, rw (decode_loop, digit_of-character d hd.0) e, br, m ∙ ap (λ t. be_value 58 t ds) means)

count_leading-digits :
    (ds : List ℕ)
    → All IsDigit ds
    → count_leading 49 (map (λ d. get_or alphabet d 0) ds) ≡ count_leading 0 ds
unfolding count_leading
count_leading-digits [] h = refl
count_leading-digits (d ∷ ds) h = rw (one_is_zero d h.0, count_leading-digits ds h.1)

count_leading-drop_zeros : (ds : List ℕ) → count_leading 0 (drop_zeros ds) ≡ 0
unfolding count_leading drop_zeros
count_leading-drop_zeros [] = refl
count_leading-drop_zeros (d ∷ ds) = ground (arith, count_leading-drop_zeros ds)

count_leading-zeros : (n : ℕ) (ds : List ℕ) → count_leading 0 (replicate n 0 ++ drop_zeros ds) ≡ n
unfolding count_leading
count_leading-zeros zero ds = count_leading-drop_zeros ds
count_leading-zeros (suc n) ds = ap suc (count_leading-zeros n ds)

-- The special case of an empty text is no special case.
decode_all :
    (s : List ℕ) (r : List ℕ)
    → decode_loop (0 ∷ []) s ≡ ok r
    → decode s ≡ ok (replicate (count_leading 49 s) 0 ++ drop_zeros (rev r))
unfolding decode
decode_all [] r e =
    unfold decode_loop count_leading drop_zeros in let start : r ≡ 0 ∷ [] = cc in rw start
decode_all (c ∷ s) r e = rw (e, ◌>>=◌)

ones : (n : ℕ) → replicate n 49 ≡ map (λ d. get_or alphabet d 0) (replicate n 0)
unfolding alphabet
ones zero = refl
ones (suc n) = ap (λ t. 49 ∷ t) (ones n)

zeros-IsDigit : (n : ℕ) → All IsDigit (replicate n 0)
zeros-IsDigit zero = tt
zeros-IsDigit (suc n) = (omega arith, zeros-IsDigit n)

drop_zeros-IsDigit : (ds : List ℕ) → All IsDigit ds → All IsDigit (drop_zeros ds)
unfolding drop_zeros
drop_zeros-IsDigit [] h = tt
drop_zeros-IsDigit (d ∷ ds) h = ground (arith, drop_zeros-IsDigit ds)

rev-All {κ} : (P : ℕ → Type κ) (xs : List ℕ) → All P xs → All P (rev xs)
rev-All P [] h = tt
rev-All P (x ∷ xs) h = All-append P (rev xs) (x ∷ []) (rev-All P xs h.1) (h.0, tt)

decoded :
    (n : ℕ) (ds input : List ℕ)
    → All IsDigit ds
    → All IsByte input
    → n ≡ count_leading 0 input
    → value 58 ds ≡ be_value 256 0 input
    → decode (replicate n 49 ++ map (λ d. get_or alphabet d 0) (drop_zeros (rev ds))) ≡ ok input
decoded n ds input hd hb hn e =
    rw (ones n, ← map-append (λ d. get_or alphabet d 0) (replicate n 0) (drop_zeros (rev ds)))
      (decode_all _ r read
        ∙ ap ok (
            ap₂ (λ k t. replicate k 0 ++ t) zeros
              (drop_zeros_unique r (rev input) br (rev-All IsByte input hb) same
                ∙ ap drop_zeros (rev-rev input))
            ∙ replicate-drop_zeros input))
  where
    ws : List ℕ
    ws = replicate n 0 ++ drop_zeros (rev ds)

    digits : All IsDigit ws
    digits =
        All-append IsDigit (replicate n 0) (drop_zeros (rev ds)) (zeros-IsDigit n)
          (drop_zeros-IsDigit (rev ds) (rev-All IsDigit ds hd))

    run :
        (r : List ℕ) × (decode_loop (0 ∷ []) (map (λ d. get_or alphabet d 0) ws) ≡ ok r)
        × All IsByte r
        × (value 256 r ≡ be_value 58 (value 256 (0 ∷ [])) ws)
    run = decode_loop-digits ws (0 ∷ []) digits (omega arith)

    r : List ℕ
    r = run.0

    read : decode_loop (0 ∷ []) (map (λ d. get_or alphabet d 0) ws) ≡ ok r
    read = run.1

    br : All IsByte r
    br = run.2

    same : value 256 r ≡ value 256 (rev input)
    same =
        run.3
        ∙ be_value-zeros 58 n (drop_zeros (rev ds))
        ∙ be_value-drop_zeros 58 (rev ds)
        ∙ be_value-rev 58 ds
        ∙ e
        ∙ ap (be_value 256 0) (sym (rev-rev input))
        ∙ be_value-rev 256 (rev input)

    zeros : count_leading 49 (map (λ d. get_or alphabet d 0) ws) ≡ count_leading 0 input
    zeros = count_leading-digits ws digits ∙ count_leading-zeros n (rev ds) ∙ hn

-- Every byte string can be encoded, no write of the base58 encoder lands outside its vector, and
-- decoding the text gives the byte string back.
pub decode-encode :
    (input : List ℕ)
    → All IsByte input
    → (text : List ℕ) × (encode input ≡ ok text) × (decode text ≡ ok input)
unfolding encode
decode-encode [] h = ([], refl, unfold decode in refl)
decode-encode (b ∷ input) h =
    let (ds, e, v) = encode_digits (b ∷ input) h in
    let lead = count_leading 0 (b ∷ input) in
    (
      replicate lead 49 ++ map (λ d. get_or alphabet d 0) (drop_zeros (rev ds)),
      rw (e, ◌>>=◌),
      decoded lead ds (b ∷ input) v.digits h refl v.means,
    )

decode_loop_refused :
    (result s : List ℕ) (i c : ℕ)
    → get_elem? s i ≡ some c
    → digit_of c ≡ none
    → decode_loop result s ≡ err invalid_base58_character
unfolding decode_loop
decode_loop_refused result [] i c e d = cc
decode_loop_refused result (x ∷ s) zero c e d = let same : x ≡ c = cc in rw (decode_loop, same, d)
decode_loop_refused result (x ∷ s) (suc i) c e d = elim (Option-cases (digit_of x)) [
  | inl no_digit ↦ rw (decode_loop, no_digit)
  | inr (digit, found) ↦
      rw (decode_loop, found) (decode_loop_refused (decode_digit result digit) s i c e d)
]

-- One character outside the alphabet, wherever it stands, makes decode throw.
pub decode_refuses :
    (s : List ℕ) (i c : ℕ)
    → get_elem? s i ≡ some c
    → digit_of c ≡ none
    → decode s ≡ err invalid_base58_character
unfolding decode
decode_refuses [] i c e d = cc
decode_refuses (x ∷ s) i c e d = rw (decode_loop_refused (0 ∷ []) (x ∷ s) i c e d, ◌>>=◌)
