-- ===== src/PublicKey/Derived.antt =====
-- `findProgramAddressSync`: which bump seed it finds, and when it gives up.
use solana_cpp_sdk.Base.{ℕ, zero, suc, ◌%◌, ◌^◌, ◌≤◌, ◌<◌, ◌≡◌, refl, arith, ap, List, [], ◌∷◌}
use solana_cpp_sdk.Base.{◌++◌, true, false, ok, err, no_valid_pda, seed_exceeds, ltb}
use solana_cpp_sdk.Base.{◌⊎◌, inl, inr, length, if◌then◌else◌, Bool-cases, ◌>>=◌}
use solana_cpp_sdk.Base.{Result, u8}
use native.Mathlib.Decide.{dec_lt}
use solana_cpp_sdk.Base.{◌∙◌}
use solana_cpp_sdk.Sodium.{Sodium}
use solana_cpp_sdk.PublicKey.{PublicKey, from_array, any_too_long, derive_hash, find_below}
use solana_cpp_sdk.PublicKey.{create_program_address, catch_runtime_error, find_program_address}

any_too_long-bump :
    (seeds : List (List ℕ)) (b : ℕ) → any_too_long (seeds ++ ((b ∷ []) ∷ [])) ≡ any_too_long seeds
unfolding any_too_long
any_too_long-bump [] b = refl
any_too_long-bump (s ∷ seeds) b =
    ap (λ t. if ltb 32 (length s) then true else t) (any_too_long-bump seeds b)

module _ (sodium : Sodium) (seeds : List (List ℕ)) (program_id : PublicKey) where
  -- The hash for a bump seed.
  abbrev pub candidate : ℕ → List ℕ
  candidate bump = derive_hash sodium (seeds ++ ((bump ∷ []) ∷ [])) program_id

  -- `result` is the highest bump below `n` whose hash is off the curve, with its address.
  pub record IsFound (n bump : ℕ) (result : Result (PublicKey × ℕ)) : Type 0 where
    pub below : bump < n
    pub off_curve : sodium.is_valid_point (candidate bump) ≡ false
    pub highest : (b : ℕ) → bump < b → b < n → sodium.is_valid_point (candidate b) ≡ true
    pub returned : result ≡ ok (from_array (candidate bump), bump)

  -- `result` is the error for `n` bumps that are all on the curve.
  pub record IsExhausted (n : ℕ) (result : Result (PublicKey × ℕ)) : Type 0 where
    pub on_the_curve : (b : ℕ) → b < n → sodium.is_valid_point (candidate b) ≡ true
    pub thrown : result ≡ err no_valid_pda

  module _ (short : any_too_long seeds ≡ false) where
    later :
        (n b : ℕ)
        → sodium.is_valid_point (candidate n) ≡ true
        → (b < n → sodium.is_valid_point (candidate b) ≡ true)
        → b < suc n
        → sodium.is_valid_point (candidate b) ≡ true
    later n b on below u = elim (dec_lt b n) [
      | yes l ↦ below l
      | no l ↦ let same : b ≡ n = omega arith in rw same on
    ]

    find_below-on :
        (n : ℕ)
        → n < 256
        → sodium.is_valid_point (candidate n) ≡ true
        → find_below sodium (suc n) seeds program_id ≡ find_below sodium n seeds program_id
    unfolding find_below create_program_address catch_runtime_error
    find_below-on n h on =
        let byte : n % 2 ^ 8 ≡ n = omega arith in
        rw (byte, any_too_long-bump seeds n, short, ◌>>=◌, on)

    pub find_below-off :
        (n : ℕ)
        → n < 256
        → sodium.is_valid_point (candidate n) ≡ false
        → find_below sodium (suc n) seeds program_id ≡ ok (from_array (candidate n), n)
    unfolding find_below create_program_address catch_runtime_error
    find_below-off n h off =
        let byte : n % 2 ^ 8 ≡ n = omega arith in
        rw (byte, any_too_long-bump seeds n, short, ◌>>=◌, off)

    find_below_lem :
        (n : ℕ)
        → n ≤ 256
        → ((bump : ℕ) × IsFound n bump (find_below sodium n seeds program_id))
          ⊎ IsExhausted n (find_below sodium n seeds program_id)
    find_below_lem zero h =
        inr (record {
          on_the_curve = λ b l. absurd (omega arith);
          thrown = unfold find_below in refl;
        })
    find_below_lem (suc n) h = elim (Bool-cases (sodium.is_valid_point (candidate n))) [
      | inl on ↦
          let same = find_below-on n (omega arith) on in
          elim (find_below_lem n (omega arith)) [
            | inl (bump, f) ↦ inl (
              bump,
              record {
                below = omega (arith, f.below);
                off_curve = f.off_curve;
                highest = λ b l u. later n b on (f.highest b l) u;
                returned = same ∙ f.returned;
              },
            )
            | inr x ↦ inr (record {
              on_the_curve = λ b u. later n b on (x.on_the_curve b) u;
              thrown = same ∙ x.thrown;
            })
          ]
      | inr off ↦ inl (
        n,
        record {
          below = omega arith;
          off_curve = off;
          highest = λ b l u. absurd (omega arith);
          returned = find_below-off n (omega arith) off;
        },
      )
    ]

    -- With seeds of at most 32 bytes the search returns the address of the highest bump seed from
    -- 255 down whose hash is off the curve, and it throws exactly when all 256 hashes are on it.
    pub find_program_address_lem :
        ((bump : ℕ) × IsFound 256 bump (find_program_address sodium seeds program_id))
        ⊎ IsExhausted 256 (find_program_address sodium seeds program_id)
    unfolding find_program_address
    find_program_address_lem = find_below_lem 256 (omega arith)

  module _ (long : any_too_long seeds ≡ true) where
    find_below_long : (n : ℕ) → find_below sodium n seeds program_id ≡ err no_valid_pda
    unfolding find_below create_program_address catch_runtime_error
    find_below_long zero = refl
    find_below_long (suc n) = rw (any_too_long-bump seeds (u8 n), long, ◌>>=◌) (find_below_long n)

    -- A seed of more than 32 bytes is reported by `createProgramAddressSync` as such, and by
    -- `findProgramAddressSync` as the want of a valid address.
    pub find_program_address_long :
        (create_program_address sodium seeds program_id ≡ err seed_exceeds)
        × (find_program_address sodium seeds program_id ≡ err no_valid_pda)
    unfolding create_program_address find_program_address
    find_program_address_long = (rw (long, ◌>>=◌), find_below_long 256)
