-- ===== src/Bip39/Bits.antt =====
-- The binary digits of `T[j] ^= U[j]` in src/solana/bip39.cpp.
use Prim.Native.Nat.{bit_xor, bit_xor-bitwise, digits, differ}
use solana_cpp_sdk.Base.{ℕ, zero, suc, ◌+◌, ◌*◌, ◌/◌, ◌%◌, ◌≤◌, ◌≡◌, refl, arith, ap, ◌∙◌}
use solana_cpp_sdk.Base.{List, [], ◌∷◌, length, get_or}
use solana_cpp_sdk.Bip39.{xor_bytes}

-- The digit of `x` at the place `k`, the lowest at 0.
unfoldable pub bit : ℕ → ℕ → ℕ
bit zero x = x % 2
bit (suc k) x = bit k (x / 2)

abbrev xor_digits : ℕ → ℕ → ℕ → ℕ
xor_digits n a b = digits (λ y. y) differ n a b

-- Any count that covers the first number serves.
xor_digits-count : (n m a b : ℕ) → a ≤ n → a ≤ m → xor_digits n a b ≡ xor_digits m a b
xor_digits-count zero zero a b p q = refl
xor_digits-count zero (suc m) zero b p q = refl
xor_digits-count zero m (suc a) b p q = absurd (omega arith)
xor_digits-count (suc n) zero zero b p q = refl
xor_digits-count n zero (suc a) b p q = absurd (omega arith)
xor_digits-count (suc n) (suc m) zero b p q = refl
xor_digits-count (suc n) (suc m) (suc a) b p q =
    ap (λ s. s * 2 + differ (suc a % 2) (b % 2))
      (xor_digits-count n m (suc a / 2) (b / 2) (omega arith) (omega arith))

differ_zero : (y : ℕ) → differ 0 y ≡ y
differ_zero y = refl

differ_one : (y : ℕ) → y ≤ 1 → differ 1 y ≡ (1 + y) % 2
differ_one zero h = refl
differ_one (suc zero) h = refl
differ_one (suc (suc y)) h = absurd (omega arith)

differ_digits : (x y : ℕ) → x ≤ 1 → y ≤ 1 → differ x y ≡ (x + y) % 2
differ_digits zero y h k = omega arith
differ_digits (suc zero) y h k = differ_one y k
differ_digits (suc (suc x)) y h k = absurd (omega arith)

xor_zero : (b : ℕ) → bit_xor 0 b ≡ b
xor_zero b = bit_xor-bitwise 0 b

bit_xor_step : (a b : ℕ) → bit_xor a b ≡ bit_xor (a / 2) (b / 2) * 2 + (a % 2 + b % 2) % 2
bit_xor_step zero b = omega (arith, xor_zero b, xor_zero (b / 2))
bit_xor_step (suc a) b = omega (
  arith,
  bit_xor-bitwise (suc a) b,
  bit_xor-bitwise (suc a / 2) (b / 2),
  xor_digits-count a (suc a / 2) (suc a / 2) (b / 2) (omega arith) (omega arith),
  differ_digits (suc a % 2) (b % 2) (omega arith) (omega arith),
)

-- A digit of the exclusive or is the parity of the two digits.
pub bit-bit_xor : (k a b : ℕ) → bit k (bit_xor a b) ≡ (bit k a + bit k b) % 2
unfolding bit
bit-bit_xor zero a b = omega (arith, bit_xor_step a b)
bit-bit_xor (suc k) a b =
    let halved : bit_xor a b / 2 ≡ bit_xor (a / 2) (b / 2) = omega (arith, bit_xor_step a b) in
    ap (bit k) halved ∙ bit-bit_xor k (a / 2) (b / 2)

pub bit-xor_bytes :
    (ts us : List ℕ) (i k : ℕ)
    → length ts ≡ length us
    → bit k (get_or (xor_bytes ts us) i 0) ≡ (bit k (get_or ts i 0) + bit k (get_or us i 0)) % 2
unfolding xor_bytes
bit-xor_bytes [] [] i k h = bit-bit_xor k 0 0
bit-xor_bytes [] (u ∷ us) i k h = absurd (omega arith)
bit-xor_bytes (t ∷ ts) [] i k h = absurd (omega arith)
bit-xor_bytes (t ∷ ts) (u ∷ us) zero k h = bit-bit_xor k t u
bit-xor_bytes (t ∷ ts) (u ∷ us) (suc i) k h = bit-xor_bytes ts us i k (omega arith)

pub bit_small : (k x : ℕ) → bit k x % 2 ≡ bit k x
unfolding bit
bit_small zero x = omega arith
bit_small (suc k) x = bit_small k (x / 2)
