-- ===== src/Base58/Positional.antt =====
-- Numbers in a base, with the lowest digit first (`value`) or the highest first (`be_value`).
use solana_cpp_sdk.Base.{ℕ, zero, suc, ◌+◌, ◌*◌, ◌^◌, ◌≡◌, refl, arith}
use solana_cpp_sdk.Base.{List, [], ◌∷◌, ◌++◌, length, rev, replicate, All, ap, ◌∙◌, ◌==◌}
use solana_cpp_sdk.Base.{Bool-cases, inl, inr}
use solana_cpp_sdk.Base.{IsByte}
use native.Mathlib.Nat.{pow-suc}
use Prim.Native.Nat.pow
use solana_cpp_sdk.Base58.{count_leading, drop_zeros}

abbrev pub value : ℕ → List ℕ → ℕ
value base [] = 0
value base (d ∷ ds) = d + base * value base ds

abbrev pub be_value : ℕ → ℕ → List ℕ → ℕ
be_value base acc [] = acc
be_value base acc (d ∷ ds) = be_value base (acc * base + d) ds

pub value-append :
    (base : ℕ) (xs ys : List ℕ)
    → value base (xs ++ ys) ≡ value base xs + base ^ length xs * value base ys
value-append base [] ys =
    omega (arith, pow.zero base, ap (λ (t : ℕ). t * value base ys) (pow.zero base))
value-append base (x ∷ xs) ys = omega (
  arith,
  ap (λ (t : ℕ). base * t) (value-append base xs ys),
  ap (λ (t : ℕ). t * value base ys) (pow-suc base (length xs)),
)

be_value-append :
    (base acc : ℕ) (xs ys : List ℕ)
    → be_value base acc (xs ++ ys) ≡ be_value base (be_value base acc xs) ys
be_value-append base acc [] ys = refl
be_value-append base acc (x ∷ xs) ys = be_value-append base (acc * base + x) xs ys

pub be_value-rev : (base : ℕ) (ds : List ℕ) → be_value base 0 (rev ds) ≡ value base ds
be_value-rev base [] = refl
be_value-rev base (d ∷ ds) = omega (
  arith,
  be_value-append base 0 (rev ds) (d ∷ []),
  ap (λ (t : ℕ). t * base) (be_value-rev base ds),
)

pub be_value-zeros :
    (base n : ℕ) (ds : List ℕ) → be_value base 0 (replicate n 0 ++ ds) ≡ be_value base 0 ds
be_value-zeros base zero ds = refl
be_value-zeros base (suc n) ds =
    let step : 0 * base + 0 ≡ 0 = omega arith in
    ap (λ t. be_value base t (replicate n 0 ++ ds)) step ∙ be_value-zeros base n ds

pub be_value-drop_zeros :
    (base : ℕ) (ds : List ℕ) → be_value base 0 (drop_zeros ds) ≡ be_value base 0 ds
unfolding drop_zeros
be_value-drop_zeros base [] = refl
be_value-drop_zeros base (d ∷ ds) = ground (arith, be_value-drop_zeros base ds)

pub replicate-drop_zeros : (ds : List ℕ) → replicate (count_leading 0 ds) 0 ++ drop_zeros ds ≡ ds
unfolding count_leading drop_zeros
replicate-drop_zeros [] = refl
replicate-drop_zeros (d ∷ ds) = ground (arith, replicate-drop_zeros ds)

-- The zeros in front of a number that grows at its low end.
after_zeros : List ℕ → ℕ → List ℕ
after_zeros [] d = drop_zeros (d ∷ [])
after_zeros (x ∷ xs) d = x ∷ xs ++ (d ∷ [])

drop_zeros-append :
    (xs : List ℕ) (d : ℕ) → drop_zeros (xs ++ (d ∷ [])) ≡ after_zeros (drop_zeros xs) d
unfolding drop_zeros after_zeros
drop_zeros-append [] d = refl
drop_zeros-append (x ∷ xs) d = elim (Bool-cases (x == 0)) [
  | inl z ↦ rw z (drop_zeros-append xs d)
  | inr z ↦ rw z refl
]

-- Two byte strings of one value have the same bytes, but for zeros in front.
pub drop_zeros_unique :
    (xs ys : List ℕ)
    → All IsByte xs
    → All IsByte ys
    → value 256 xs ≡ value 256 ys
    → drop_zeros (rev xs) ≡ drop_zeros (rev ys)
drop_zeros_unique [] [] hx hy e = refl
drop_zeros_unique [] (y ∷ ys) hx hy e =
    let y0 : y ≡ 0 = omega arith in
    rw (y0, drop_zeros-append (rev ys) 0, ← drop_zeros_unique [] ys tt hy.1 (omega arith))
      (unfold drop_zeros after_zeros in refl)
drop_zeros_unique (x ∷ xs) [] hx hy e =
    let x0 : x ≡ 0 = omega arith in
    rw (x0, drop_zeros-append (rev xs) 0, drop_zeros_unique xs [] hx.1 tt (omega arith))
      (unfold drop_zeros after_zeros in refl)
drop_zeros_unique (x ∷ xs) (y ∷ ys) hx hy e =
    let same : x ≡ y = omega arith in
    rw (
      same,
      drop_zeros-append (rev xs) y,
      drop_zeros-append (rev ys) y,
      drop_zeros_unique xs ys hx.1 hy.1 (omega arith),
    )

pub rev-append : (xs : List ℕ) (y : ℕ) → rev (xs ++ (y ∷ [])) ≡ y ∷ rev xs
rev-append [] y = refl
rev-append (x ∷ xs) y = ap (λ t. t ++ (x ∷ [])) (rev-append xs y)

pub rev-rev : (xs : List ℕ) → rev (rev xs) ≡ xs
rev-rev [] = refl
rev-rev (x ∷ xs) = rev-append (rev xs) x ∙ ap (λ t. x ∷ t) (rev-rev xs)
