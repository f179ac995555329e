-- ===== src/Rpc/Decimal.antt =====
-- src/solana/rpc_client.cpp: the digits of `std::to_string`.
use native.Mathlib.Nat.{pow-suc}
use solana_cpp_sdk.Base.{
  ℕ, zero, suc, ◌+◌, ◌-◌, ◌*◌, ◌/◌, ◌%◌, ◌^◌, ◌<◌, ◌≤◌, List, [], ◌∷◌, true, false, ◌≡◌,
}
use solana_cpp_sdk.Base.{refl, ap, ◌∙◌, arith, All, ltb, Bool-cases, inl, inr}
use solana_cpp_sdk.Json.{is_digit}
use solana_cpp_sdk.Json.Access.{digits_value}
use solana_cpp_sdk.Json.Leaves.{decimal}
use solana_cpp_sdk.Rpc.Http.{to_string, write_digits}

write_none : (n : ℕ) (rest : List ℕ) → write_digits 0 n rest ≡ rest
unfolding write_digits
write_none n rest = refl

-- One round: the digit, and the rounds before it.
write_last :
    (fuel n : ℕ) (rest : List ℕ) → n < 10 → write_digits (suc fuel) n rest ≡ (48 + n % 10) ∷ rest
unfolding write_digits
write_last fuel n rest h = let short : ltb n 10 ≡ true = ground arith in rw short refl

write_round :
    (fuel n : ℕ) (rest : List ℕ)
    → 10 ≤ n
    → write_digits (suc fuel) n rest ≡ write_digits fuel (n / 10) ((48 + n % 10) ∷ rest)
unfolding write_digits
write_round fuel n rest h =
    let long : ltb n 10 ≡ false = ground arith in rw (write_digits, long) refl

write_digits-decimal :
    (fuel n : ℕ) (rest : List ℕ)
    → n < 10 ^ fuel
    → decimal (write_digits fuel n rest) 0 ≡ decimal rest n
unfolding decimal
write_digits-decimal zero n rest h = rw (write_none n rest) (ap (decimal rest) (omega arith))
write_digits-decimal (suc fuel) n rest h = elim (Bool-cases (ltb n 10)) [
  | inl e ↦
      let small : n < 10 = ground arith in
      rw (write_last fuel n rest small) (ap (decimal rest) (omega arith))
  | inr e ↦
      let big : 10 ≤ n = ground arith in
      let bound : n / 10 < 10 ^ fuel = omega (arith, pow-suc 10 fuel, h) in
      rw (write_round fuel n rest big) (
        write_digits-decimal fuel (n / 10) ((48 + n % 10) ∷ rest) bound
        ∙ ap (decimal rest) (omega arith))
]

pub decimal-to_string : (n : ℕ) → n < 2 ^ 64 → decimal (to_string n) 0 ≡ n
unfolding to_string decimal
decimal-to_string n h = write_digits-decimal 20 n [] (omega arith)

last_digit : (n : ℕ) → is_digit (48 + n % 10) ≡ true
unfolding is_digit
last_digit n = ground arith

write_digits-is_digit :
    (fuel n : ℕ) (rest : List ℕ)
    → All (λ c. is_digit c ≡ true) rest
    → All (λ c. is_digit c ≡ true) (write_digits fuel n rest)
unfolding write_digits
write_digits-is_digit zero n rest h = h
write_digits-is_digit (suc fuel) n rest h = elim (Bool-cases (ltb n 10)) [
  | inl e ↦ rw e (last_digit n, h)
  | inr e ↦ rw e (write_digits-is_digit fuel (n / 10) ((48 + n % 10) ∷ rest) (last_digit n, h))
]

pub to_string-is_digit : (n : ℕ) → All (λ c. is_digit c ≡ true) (to_string n)
unfolding to_string
to_string-is_digit n = write_digits-is_digit 20 n [] tt

write_digits_starts :
    (fuel n c : ℕ) (rest : List ℕ)
    → (d : ℕ) × (ds : List ℕ) × (write_digits fuel n (c ∷ rest) ≡ d ∷ ds)
unfolding write_digits
write_digits_starts zero n c rest = (c, rest, refl)
write_digits_starts (suc fuel) n c rest = elim (Bool-cases (ltb n 10)) [
  | inl e ↦ (48 + n % 10, c ∷ rest, rw e refl)
  | inr e ↦
      let (d, ds, q) = write_digits_starts fuel (n / 10) (48 + n % 10) (c ∷ rest) in (d, ds, rw e q)
]

pub to_string_starts : (n : ℕ) → (d : ℕ) × (ds : List ℕ) × (to_string n ≡ d ∷ ds)
unfolding to_string write_digits
to_string_starts n = elim (Bool-cases (ltb n 10)) [
  | inl e ↦ (48 + n % 10, [], rw e refl)
  | inr e ↦ let (d, ds, q) = write_digits_starts 19 (n / 10) (48 + n % 10) [] in (d, ds, rw e q)
]

pub digits_value-All :
    (s : List ℕ) (n : ℕ) → All (λ c. is_digit c ≡ true) s → digits_value s n ≡ decimal s n
unfolding digits_value decimal
digits_value-All [] n h = refl
digits_value-All (c ∷ s) n h = rw h.0 (digits_value-All s (n * 10 + (c - 48)) h.1)
