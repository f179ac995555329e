-- ===== src/Base58/Decoded.antt =====
-- `Base58::decode` on every text: whether it returns, and what its result consists of.
use solana_cpp_sdk.Base.{
  ℕ, zero, suc, ◌<◌, ◌≤◌, ◌≡◌, refl, arith, List, [], ◌∷◌, ◌++◌, rev, replicate,
}
use solana_cpp_sdk.Base.{Option, none, some, All, All-append, IsByte, ok, err, ◌>>=◌}
use solana_cpp_sdk.Base.{ltb, le→leb, inl, inr, Bool-cases}
use solana_cpp_sdk.Base.{agree_below, agree_below_sound, Option-cases, if◌then◌else◌}
use solana_cpp_sdk.Base.{◌⊎◌, sym, ◌∙◌, invalid_base58_character}
use mathlib.Core.Path.{subst}
use solana_cpp_sdk.Base58.{
  alphabet_map, digit_of, count_leading, drop_zeros, decode, decode_loop, decode_digit,
}
use solana_cpp_sdk.Base58.Rounds.{decode_digit_lem}

-- 0 for no digit, 1 for a digit below 58, and else 2.
abbrev rank : Option ℕ → ℕ
rank none = 0
rank (some d) = if ltb d 58 then 1 else 2

small_rank : (d : ℕ) → rank (some d) ≡ 1 → d < 58
small_rank d h = ground arith

abbrev rank_or_one : Option ℕ → ℕ
rank_or_one none = 1
rank_or_one (some d) = rank (some d)

all_small : (c : ℕ) → c < 128 → rank_or_one (digit_of c) ≡ 1
unfolding agree_below digit_of alphabet_map
all_small c h = agree_below_sound (λ c. rank_or_one (digit_of c)) (λ c. 1) 128 c refl h

refused : (c : ℕ) → 128 ≤ c → digit_of c ≡ none
unfolding digit_of
refused c h = rw (le→leb 128 c h) refl

digit_of_bound : (c d : ℕ) → digit_of c ≡ some d → d < 58
digit_of_bound c d h = elim (Bool-cases (ltb c 128)) [
  | inl e ↦
      let one = all_small c (ground arith) in small_rank d (subst (λ o. rank_or_one o ≡ 1) h one)
  | inr e ↦ let gone = refused c (ground arith) in cc
]

decode_loop_lem :
    (result s : List ℕ)
    → All IsByte result
    → (decode_loop result s ≡ err invalid_base58_character)
      ⊎ ((out : List ℕ) × (decode_loop result s ≡ ok out) × All IsByte out)
unfolding decode_loop
decode_loop_lem result [] h = inr (result, refl, h)
decode_loop_lem result (c ∷ s) h = elim (Option-cases (digit_of c)) [
  | inl no_digit ↦ inl (rw (decode_loop, no_digit))
  | inr (digit, found) ↦
      let bytes = (decode_digit_lem result digit h (digit_of_bound c digit found)).0 in
      rw (decode_loop, found) (decode_loop_lem (decode_digit result digit) s bytes)
]

rev-IsByte : (xs : List ℕ) → All IsByte xs → All IsByte (rev xs)
rev-IsByte [] h = tt
rev-IsByte (x ∷ xs) h = All-append IsByte (rev xs) (x ∷ []) (rev-IsByte xs h.1) (h.0, tt)

drop_zeros-IsByte : (ds : List ℕ) → All IsByte ds → All IsByte (drop_zeros ds)
unfolding drop_zeros
drop_zeros-IsByte [] h = tt
drop_zeros-IsByte (d ∷ ds) h = ground (arith, drop_zeros-IsByte ds)

zeros-IsByte : (n : ℕ) → All IsByte (replicate n 0)
zeros-IsByte zero = tt
zeros-IsByte (suc n) = (omega arith, zeros-IsByte n)

-- Every text is refused or decoded to bytes.
pub decode_lem :
    (text : List ℕ)
    → (decode text ≡ err invalid_base58_character)
      ⊎ ((out : List ℕ) × (decode text ≡ ok out) × All IsByte out)
unfolding decode
decode_lem [] = inr ([], refl, tt)
decode_lem (c ∷ text) = elim (decode_loop_lem (0 ∷ []) (c ∷ text) (omega arith, tt)) [
  | inl refused ↦ inl (rw (refused, ◌>>=◌))
  | inr (out, read, bytes) ↦ inr (
    replicate (count_leading 49 (c ∷ text)) 0 ++ drop_zeros (rev out),
    rw (read, ◌>>=◌),
    All-append IsByte (replicate (count_leading 49 (c ∷ text)) 0) (drop_zeros (rev out))
        (zeros-IsByte (count_leading 49 (c ∷ text)))
        (drop_zeros-IsByte (rev out) (rev-IsByte out bytes)),
  )
]

ok-injective : (a b : List ℕ) → ok a ≡ ok b → a ≡ b
ok-injective a b e = cc

ok_not_err : (a : List ℕ) → err invalid_base58_character ≡ ok a → ⊥
ok_not_err a e = cc

pub decode-IsByte : (text out : List ℕ) → decode text ≡ ok out → All IsByte out
decode-IsByte text out e = elim (decode_lem text) [
  | inl refused ↦ absurd (ok_not_err out (sym refused ∙ e))
  | inr (out', read, bytes) ↦ subst (All IsByte) (ok-injective out' out (sym read ∙ e)) bytes
]
