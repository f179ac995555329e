-- ===== src/Base64/Laws.antt =====
-- Decoding what the encoder wrote.
use solana_cpp_sdk.Base.{ℕ, suc, ◌+◌, ◌*◌, ◌/◌, ◌%◌, ◌^◌, ◌<◌, ◌≡◌, refl, arith, ap, List, [], ◌∷◌}
use solana_cpp_sdk.Base.{
  Option, none, some, get_or, All, IsByte, agree_below, agree_below_sound, u8, u32,
}
use solana_cpp_sdk.Base.{ap₂, ◌∙◌}
use solana_cpp_sdk.Base64.{base64_alphabet, base64_table, sextet, base64_encode, base64_decode}
use solana_cpp_sdk.Base64.{base64_decode_loop, Compiler, IsWrapping, shift_six}
use solana_cpp_sdk.Base.{
  Option-cases, Bool-cases, inl, inr, ok, ◌>>=◌, ltb, leb, if◌then◌else◌, ◌-◌,
}

abbrev as_number : Option ℕ → ℕ
as_number none = 0
as_number (some d) = suc d

some_of_number : (o : Option ℕ) (d : ℕ) → as_number o ≡ suc d → o ≡ some d
some_of_number none d h = absurd (omega arith)
some_of_number (some c) d h = ap some (omega arith)

-- The two tables are inverse on the 64 digits.
table-alphabet : (d : ℕ) → d < 64 → get_or base64_table (get_or base64_alphabet d 0) none ≡ some d
unfolding agree_below base64_alphabet base64_table
table-alphabet d h = some_of_number _ d (
    agree_below_sound (λ d. as_number (get_or base64_table (get_or base64_alphabet d 0) none))
      (λ d. suc d) 64 d refl h)

table-sextet :
    (val shift : ℕ) → get_or base64_table (sextet val shift) none ≡ some (val / 2 ^ shift % 64)
unfolding sextet
table-sextet val shift = table-alphabet (val / 2 ^ shift % 64) (omega arith)

-- The decoder with shifts that wrap.
unfoldable read_loop : ℕ → ℕ → List ℕ → List ℕ
read_loop val bits [] = []
read_loop val bits (c ∷ text) = elim (get_or base64_table c none) [
  | none ↦ []
  | some t ↦
      let val' = u32 (val * 2 ^ 6 + t) in
      let bits' = bits + 6 in
      let pushed = u8 (val' / 2 ^ (bits' - 8)) ∷ read_loop val' (bits' - 8) text in
      let waits = read_loop val' bits' text in if leb 8 bits' then pushed else waits
]

module _ (compiler : Compiler) (wraps : IsWrapping compiler) where
  shift_six-u32 :
      (val : ℕ)
      → (shifted : ℕ) × (shift_six compiler val ≡ ok shifted)
        × ((t : ℕ) → u32 (shifted + t) ≡ u32 (val * 2 ^ 6 + t))
  unfolding shift_six
  shift_six-u32 val = elim (Bool-cases (ltb (val * 2 ^ 6) (2 ^ 32))) [
    | inl fits ↦ (val * 2 ^ 6, rw fits refl, λ t. refl)
    | inr over ↦ (u32 (val * 2 ^ 6), rw over (wraps val), λ t. omega arith)
  ]

  base64_decode_loop-read_loop :
      (val bits : ℕ) (text : List ℕ)
      → base64_decode_loop compiler val bits text ≡ ok (read_loop val bits text)
  unfolding base64_decode_loop read_loop
  base64_decode_loop-read_loop val bits [] = refl
  base64_decode_loop-read_loop val bits (c ∷ text) =
      elim (Option-cases (get_or base64_table c none)) [
        | inl e ↦ rw (base64_decode_loop, read_loop, e) refl
        | inr (t, e) ↦
            let (shifted, shift, same) = shift_six-u32 val in
            let more = base64_decode_loop-read_loop (u32 (val * 2 ^ 6 + t)) (bits + 6 - 8) text in
            let waits = base64_decode_loop-read_loop (u32 (val * 2 ^ 6 + t)) (bits + 6) text in
            elim (Bool-cases (leb 8 (bits + 6))) [
              | inl push ↦
                  rw (base64_decode_loop, read_loop, e, shift, ◌>>=◌, same t, push, more) refl
              | inr wait ↦
                  rw (base64_decode_loop, read_loop, e, shift, ◌>>=◌, same t, wait, waits) refl
            ]
      ]

-- One character, by the number of bits that wait.
module _ (val c t : ℕ) (text : List ℕ) (digit : get_or base64_table c none ≡ some t) where
  take_0 : read_loop val 0 (c ∷ text) ≡ read_loop (u32 (val * 2 ^ 6 + t)) 6 text
  unfolding read_loop
  take_0 = rw (read_loop, digit)

  take_6 :
      read_loop val 6 (c ∷ text)
      ≡ u8 (u32 (val * 2 ^ 6 + t) / 2 ^ 4) ∷ read_loop (u32 (val * 2 ^ 6 + t)) 4 text
  unfolding read_loop
  take_6 = rw (read_loop, digit)

  take_4 :
      read_loop val 4 (c ∷ text)
      ≡ u8 (u32 (val * 2 ^ 6 + t) / 2 ^ 2) ∷ read_loop (u32 (val * 2 ^ 6 + t)) 2 text
  unfolding read_loop
  take_4 = rw (read_loop, digit)

  take_2 :
      read_loop val 2 (c ∷ text)
      ≡ u8 (u32 (val * 2 ^ 6 + t) / 2 ^ 0) ∷ read_loop (u32 (val * 2 ^ 6 + t)) 0 text
  unfolding read_loop
  take_2 = rw (read_loop, digit)

abbrev next : ℕ → ℕ → ℕ
next val t = u32 (val * 2 ^ 6 + t)

cons_eq : (x y : ℕ) {xs ys : List ℕ} → x ≡ y → xs ≡ ys → x ∷ xs ≡ y ∷ ys
cons_eq x y p q = ap₂ ◌∷◌ p q

-- The first two characters of a group, whose value is `w`.
decode_two :
    (val w : ℕ) (text : List ℕ)
    → w < 2 ^ 24
    → read_loop val 0 (sextet w 18 ∷ sextet w 12 ∷ text)
      ≡ w / 2 ^ 16 ∷ read_loop (next (next val (w / 2 ^ 18 % 64)) (w / 2 ^ 12 % 64)) 4 text
decode_two val w text h =
    take_0 val (sextet w 18) (w / 2 ^ 18 % 64) (sextet w 12 ∷ text) (table-sextet w 18)
    ∙ take_6 (next val (w / 2 ^ 18 % 64)) (sextet w 12) (w / 2 ^ 12 % 64) text (table-sextet w 12)
    ∙ cons_eq _ (w / 2 ^ 16) (omega arith) refl

-- The third character, which completes the second byte.
decode_third :
    (val w : ℕ) (text : List ℕ)
    → w < 2 ^ 24
    → read_loop (next val (w / 2 ^ 12 % 64)) 4 (sextet w 6 ∷ text)
      ≡ w / 2 ^ 8 % 256 ∷ read_loop (next (next val (w / 2 ^ 12 % 64)) (w / 2 ^ 6 % 64)) 2 text
decode_third val w text h =
    take_4 (next val (w / 2 ^ 12 % 64)) (sextet w 6) (w / 2 ^ 6 % 64) text (table-sextet w 6)
    ∙ cons_eq _ (w / 2 ^ 8 % 256) (omega arith) refl

decode_fourth :
    (val w : ℕ) (text : List ℕ)
    → w < 2 ^ 24
    → read_loop (next val (w / 2 ^ 6 % 64)) 2 (sextet w 0 ∷ text)
      ≡ w % 256 ∷ read_loop (next (next val (w / 2 ^ 6 % 64)) (w / 2 ^ 0 % 64)) 0 text
decode_fourth val w text h =
    take_2 (next val (w / 2 ^ 6 % 64)) (sextet w 0) (w / 2 ^ 0 % 64) text (table-sextet w 0)
    ∙ cons_eq _ (w % 256) (omega arith) refl

-- The padding character ends the text.
decode_padding : (val bits : ℕ) (text : List ℕ) → read_loop val bits (61 ∷ text) ≡ []
unfolding read_loop base64_table
decode_padding val bits text = refl

decode-encode_from :
    (bytes : List ℕ) (val : ℕ) → All IsByte bytes → read_loop val 0 (base64_encode bytes) ≡ bytes
unfolding base64_encode
decode-encode_from [] val h = unfold read_loop in refl
decode-encode_from (a ∷ []) val h =
    let w = a * 2 ^ 16 in
    decode_two val w (61 ∷ 61 ∷ []) (omega arith)
    ∙ cons_eq _ a (omega arith) (decode_padding _ 4 (61 ∷ []))
decode-encode_from (a ∷ b ∷ []) val h =
    let w = a * 2 ^ 16 + b * 2 ^ 8 in
    decode_two val w (sextet w 6 ∷ 61 ∷ []) (omega arith)
    ∙ cons_eq _ a (omega arith) (
        decode_third (next val (w / 2 ^ 18 % 64)) w (61 ∷ []) (omega arith)
        ∙ cons_eq _ b (omega arith) (decode_padding _ 2 []))
decode-encode_from (a ∷ b ∷ c ∷ bytes) val h =
    let w = a * 2 ^ 16 + b * 2 ^ 8 + c in
    decode_two val w (sextet w 6 ∷ sextet w 0 ∷ base64_encode bytes) (omega arith)
    ∙ cons_eq _ a (omega arith) (
        decode_third (next val (w / 2 ^ 18 % 64)) w (sextet w 0 ∷ base64_encode bytes) (omega arith)
        ∙ cons_eq _ b (omega arith) (
            decode_fourth (next (next val (w / 2 ^ 18 % 64)) (w / 2 ^ 12 % 64)) w
              (base64_encode bytes) (omega arith)
            ∙ cons_eq _ c (omega arith) (decode-encode_from bytes _ h.1.1.1)))

-- Compiled so that signed shifts wrap, the decoder of the RPC client gives back every byte string
-- that the transactions' encoder wrote.
pub base64_decode-encode :
    (compiler : Compiler)
    → IsWrapping compiler
    → (bytes : List ℕ) → All IsByte bytes
    → base64_decode compiler (base64_encode bytes) ≡ ok bytes
unfolding base64_decode
base64_decode-encode compiler wraps bytes h =
    base64_decode_loop-read_loop compiler wraps 0 0 (base64_encode bytes)
    ∙ ap ok (decode-encode_from bytes 0 h)
