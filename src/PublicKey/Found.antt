-- ===== src/PublicKey/Found.antt =====
-- `findProgramAddressSync`: the address that it returns.
use solana_cpp_sdk.Base.{ℕ, ◌≡◌, sym, ◌∙◌, false, List, ok, err, inl, inr, Error, no_valid_pda}
use mathlib.Core.Path.{subst}
use solana_cpp_sdk.Sodium.{Sodium, WritesBytes}
use solana_cpp_sdk.PublicKey.{
  PublicKey, IsPublicKey, find_program_address, any_too_long, derive_hash, from_array, is_on_curve,
  to_buffer,
}
use solana_cpp_sdk.PublicKey.Derived.{candidate, find_program_address_lem}

found_not_err : (found : PublicKey × ℕ) (e : Error) → err e ≡ ok found → ⊥
found_not_err found e h = cc

found_address : (found found' : PublicKey × ℕ) → ok found ≡ ok found' → found.0 ≡ found'.0
found_address found found' h = cc

candidate-IsPublicKey :
    (sodium : Sodium) (seeds : List (List ℕ)) (program : PublicKey) (b : ℕ)
    → WritesBytes sodium
    → IsPublicKey (from_array (candidate sodium seeds program b))
unfolding from_array derive_hash
candidate-IsPublicKey sodium seeds program b writes = writes.hash_bytes _

pub find_program_address-IsPublicKey :
    (sodium : Sodium) (seeds : List (List ℕ)) (program address : PublicKey) (bump : ℕ)
    → WritesBytes sodium
    → any_too_long seeds ≡ false
    → find_program_address sodium seeds program ≡ ok (address, bump)
    → IsPublicKey address
find_program_address-IsPublicKey sodium seeds program address bump writes short e =
    elim (find_program_address_lem sodium seeds program short) [
      | inl (b, found) ↦
          subst IsPublicKey
            (found_address (from_array (candidate sodium seeds program b), b) (address, bump)
              (sym found.returned ∙ e))
            (candidate-IsPublicKey sodium seeds program b writes)
      | inr exhausted ↦
          absurd (found_not_err (address, bump) no_valid_pda (sym exhausted.thrown ∙ e))
    ]

candidate_off_curve :
    (sodium : Sodium) (seeds : List (List ℕ)) (program : PublicKey) (b : ℕ)
    → sodium.is_valid_point (candidate sodium seeds program b) ≡ false
    → is_on_curve sodium (from_array (candidate sodium seeds program b)) ≡ false
unfolding is_on_curve to_buffer from_array
candidate_off_curve sodium seeds program b h = h

-- `isOnCurve` denies the address.
pub is_on_curve-find_program_address :
    (sodium : Sodium) (seeds : List (List ℕ)) (program address : PublicKey) (bump : ℕ)
    → any_too_long seeds ≡ false
    → find_program_address sodium seeds program ≡ ok (address, bump)
    → is_on_curve sodium address ≡ false
is_on_curve-find_program_address sodium seeds program address bump short e =
    elim (find_program_address_lem sodium seeds program short) [
      | inl (b, found) ↦
          subst (λ k. is_on_curve sodium k ≡ false)
            (found_address (from_array (candidate sodium seeds program b), b) (address, bump)
              (sym found.returned ∙ e))
            (candidate_off_curve sodium seeds program b found.off_curve)
      | inr exhausted ↦
          absurd (found_not_err (address, bump) no_valid_pda (sym exhausted.thrown ∙ e))
    ]
