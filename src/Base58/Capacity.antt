-- ===== src/Base58/Capacity.antt =====
-- The size of the vector `digits` of `Base58::encode`, against the digits that are written.
use solana_cpp_sdk.Base.{ℕ, zero, suc, ◌+◌, ◌-◌, ◌*◌, ◌/◌, ◌%◌, ◌^◌, ◌≤◌, ◌<◌, ◌≡◌, refl, arith}
use solana_cpp_sdk.Base.{List, [], ◌∷◌, ◌++◌, length, All, All-append, IsByte, ap, le→leb}
use solana_cpp_sdk.Base.{length-append, ok, ◌⊎◌, inl, inr, ◌∙◌}
use solana_cpp_sdk.Base58.{pass, emit, encode_byte, encode_loop, encode_capacity}
use solana_cpp_sdk.Base58.Positional.{value, value-append, be_value}
use solana_cpp_sdk.Base58.Rounds.{IsDigit, encode_pass_bounds, encode_pass-value, emit_58}
use native.Mathlib.Nat.{
  pow-suc, pow-zero, add-zero, add-suc, pow-le-pow_right, mul-le-mul, mul-le-mul_left,
}
use mathlib.Core.Path.{subst, subst₂}
use native.Mathlib.Decide.{dec_lt}
use solana_cpp_sdk.Base.{agree_below, agree_below_sound, ◌>>=◌}

-- The digits have no zero in front, but for the number 0 itself.
abbrev pub IsLean : List ℕ → Type 0
IsLean ds = (length ds ≡ 1) ⊎ (58 ^ length ds ≤ 58 * value 58 ds)

-- `capacity` digits hold every number of `n` bytes.
abbrev pub Holds : ℕ → ℕ → Type 0
Holds capacity n = (1 ≤ capacity) × (256 ^ n ≤ 58 ^ capacity)

lean-le :
    (ds : List ℕ) (capacity : ℕ)
    → IsLean ds
    → 1 ≤ capacity
    → value 58 ds < 58 ^ capacity
    → length ds ≤ capacity
lean-le ds capacity (inl one) pos h = omega arith
lean-le ds capacity (inr big) pos h = elim (dec_lt capacity (length ds)) [
  | yes p ↦ absurd (omega (arith, pow-le-pow_right {n = 58} (omega arith) p, pow-suc 58 capacity))
  | no p ↦ omega arith
]

emit-zero : (k : ℕ) → length (emit k 58 0) ≡ 0
unfolding emit
emit-zero zero = refl
emit-zero (suc k) = refl

emit_lean : (k c : ℕ) → c < 58 ^ k → (c ≡ 0) ⊎ (58 ^ length (emit k 58 c) ≤ 58 * c)
unfolding emit
emit_lean zero c h = inl (omega arith)
emit_lean (suc k) c h = ground (
  arith,
  emit_lean k (c / 58) (omega arith),
  emit-zero k,
  pow-suc 58 (length (emit k 58 (c / 58))),
)

pow-add : (b n m : ℕ) → b ^ (n + m) ≡ b ^ n * b ^ m
pow-add b n zero = simp (add-zero, pow-zero) (omega arith)
pow-add b n (suc m) = rw add-suc (
    omega (
      arith,
      pow-suc b (n + m),
      ap (λ (t : ℕ). t * b) (pow-add b n m),
      ap (λ (t : ℕ). b ^ n * t) (pow-suc b m),
    ))

holds_below_100 : (r : ℕ) → r < 100 → 256 ^ r - 58 ^ (r * 137 / 100 + 1) ≡ 0
unfolding agree_below
holds_below_100 r h =
    agree_below_sound (λ r. 256 ^ r - 58 ^ (r * 137 / 100 + 1)) (λ _. 0) 100 r refl h

-- A hundred more bytes take 137 more digits.
holds_hundreds : (q r : ℕ) → r < 100 → 256 ^ (r + 100 * q) ≤ 58 ^ (r * 137 / 100 + 1 + 137 * q)
holds_hundreds zero r h =
    let bytes : r + 100 * 0 ≡ r = omega arith in
    let digits : r * 137 / 100 + 1 + 137 * 0 ≡ r * 137 / 100 + 1 = omega arith in
    rw (bytes, digits) (omega (arith, holds_below_100 r h))
holds_hundreds (suc q) r h =
    let bytes : r + 100 * suc q ≡ r + 100 * q + 100 = omega arith in
    let digits : r * 137 / 100 + 1 + 137 * suc q ≡ r * 137 / 100 + 1 + 137 * q + 137 =
      omega arith in
    let hundred : 256 ^ 100 ≤ 58 ^ 137 = omega arith in
    rw (bytes, digits, pow-add 256 (r + 100 * q) 100, pow-add 58 (r * 137 / 100 + 1 + 137 * q) 137)
      (mul-le-mul (holds_hundreds q r h) hundred)

pub encode_capacity-Holds : (n : ℕ) → Holds (encode_capacity n) n
unfolding encode_capacity
encode_capacity-Holds n =
    let bytes : n % 100 + 100 * (n / 100) ≡ n = omega arith in
    let digits : n % 100 * 137 / 100 + 1 + 137 * (n / 100) ≡ n * 137 / 100 + 1 = omega arith in
    (
      omega arith,
      subst₂ (λ a b. 256 ^ a ≤ 58 ^ b) bytes digits
          (holds_hundreds (n / 100) (n % 100) (omega arith)),
    )

-- What holds of the digits after some bytes: they are digits without zeros in front, and they
-- stand for the number that the bytes write.
pub record IsEncoding (ds : List ℕ) (number : ℕ) : Type 0 where
  pub digits : All IsDigit ds
  pub lean : IsLean ds
  pub means : value 58 ds ≡ number

-- What a round appends for its carry keeps the digits lean.
IsLean-append :
    (xs : List ℕ) (carry before : ℕ)
    → carry < 256
    → (length xs ≡ 1) ⊎ (58 ^ length xs ≤ 58 * before)
    → value 58 (xs ++ emit 6 58 carry) ≡ before
    → IsLean (xs ++ emit 6 58 carry)
IsLean-append xs carry before small old e = elim (emit_lean 6 carry (omega arith)) [
  | inl none_left ↦
      let empty : length (xs ++ emit 6 58 carry) ≡ length xs =
        rw (none_left, length-append xs (emit 6 58 0)) (omega (arith, emit-zero 6)) in
      elim old [ inl one ↦ inl (empty ∙ one) | inr big ↦ inr (rw (empty, e) big) ]
  | inr big ↦ inr (
      rw
        (
          length-append xs (emit 6 58 carry),
          pow-add 58 (length xs) (length (emit 6 58 carry)),
          value-append 58 xs (emit 6 58 carry),
        )
        (omega (
          arith,
          mul-le-mul_left (58 ^ length xs) big,
          (emit_58 6 carry (omega arith)).1,
          ap (λ (t : ℕ). 58 ^ length xs * t) (emit_58 6 carry (omega arith)).1,
        )))
]

-- One byte: the digits have room, and stand for the number with the byte behind it.
pub encode_byte_lem :
    (capacity : ℕ) (ds : List ℕ) (number byte : ℕ)
    → IsEncoding ds number
    → IsByte byte
    → 1 ≤ capacity
    → number * 256 + byte < 58 ^ capacity
    → (ds' : List ℕ) × (encode_byte capacity ds byte ≡ ok ds')
      × IsEncoding ds' (number * 256 + byte)
unfolding encode_byte
encode_byte_lem capacity ds number byte v hb pos room = (
  ds',
  rw (le→leb _ _ (lean-le ds' capacity lean pos (omega (arith, means)))),
  record {
    digits = All-append IsDigit p.0 (emit 6 58 p.1) bounds.0 more.0;
    lean = lean;
    means = means;
  },
)
  where
    p : List ℕ × ℕ
    p = pass 256 58 ds byte

    bounds : All IsDigit p.0 × (p.1 < 256) × (length p.0 ≡ length ds)
    bounds = encode_pass_bounds ds byte v.digits hb

    more : All IsDigit (emit 6 58 p.1) × (value 58 (emit 6 58 p.1) ≡ p.1)
    more = emit_58 6 p.1 (omega (arith, bounds))

    ds' : List ℕ
    ds' = p.0 ++ emit 6 58 p.1

    means : value 58 ds' ≡ number * 256 + byte
    means = omega (arith, encode_pass-value ds byte (emit 6 58 p.1) v.digits hb more.1, v.means)

    lean : IsLean ds'
    lean =
        IsLean-append p.0 p.1 (number * 256 + byte) bounds.1
          (grind (arith, v.lean, v.means, bounds)) means

-- All bytes, one after the other.
encode_loop_lem :
    (capacity n : ℕ) (ds : List ℕ) (number : ℕ) (input : List ℕ)
    → IsEncoding ds number
    → All IsByte input
    → 1 ≤ capacity
    → number < 256 ^ n
    → 256 ^ (n + length input) ≤ 58 ^ capacity
    → (ds' : List ℕ) × (encode_loop capacity ds input ≡ ok ds')
      × IsEncoding ds' (be_value 256 number input)
unfolding encode_loop
encode_loop_lem capacity n ds number [] v hb pos small room = (ds, refl, v)
encode_loop_lem capacity n ds number (b ∷ input) v hb pos small room =
    let longer : n + length (b ∷ input) ≡ suc n + length input = omega arith in
    let more : 256 ^ suc n ≤ 256 ^ (n + length (b ∷ input)) =
      pow-le-pow_right {n = 256} (omega arith) (omega arith) in
    let (ds₁, e₁, v₁) =
      encode_byte_lem capacity ds number b v hb.0 pos (omega (arith, pow-suc 256 n)) in
    let (ds₂, e₂, v₂) =
      encode_loop_lem capacity (suc n) ds₁ (number * 256 + b) input v₁ hb.1 pos
        (omega (arith, pow-suc 256 n)) (subst (λ t. 256 ^ t ≤ 58 ^ capacity) longer room) in
    (ds₂, rw (e₁, ◌>>=◌) e₂, v₂)

-- Encoding any bytes writes every digit inside the vector.
pub encode_digits :
    (input : List ℕ)
    → All IsByte input
    → (ds : List ℕ) × (encode_loop (encode_capacity (length input)) (0 ∷ []) input ≡ ok ds)
      × IsEncoding ds (be_value 256 0 input)
encode_digits input hb =
    let (pos, room) = encode_capacity-Holds (length input) in
    encode_loop_lem (encode_capacity (length input)) 0 (0 ∷ []) 0 input
      (record { digits = omega arith; lean = inl refl; means = omega arith }) hb pos (omega arith)
      (subst (λ t. 256 ^ t ≤ 58 ^ encode_capacity (length input)) (omega arith) room)
