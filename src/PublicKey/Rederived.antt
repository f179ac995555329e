-- ===== src/PublicKey/Rederived.antt =====
-- `findProgramAddressSync` of src/solana/publicKey.cpp next to `createProgramAddressSync`.
use solana_cpp_sdk.Base.{ℕ, zero, suc, ◌%◌, ◌^◌, ◌≤◌, ◌<◌, ◌≡◌, refl, arith, List, [], ◌∷◌, ◌++◌}
use solana_cpp_sdk.Base.{ok, err, Result, is_runtime_error, Bool-cases}
use solana_cpp_sdk.Base.{inl, inr}
use solana_cpp_sdk.Sodium.{Sodium}
use solana_cpp_sdk.PublicKey.{PublicKey, find_below, create_program_address, catch_runtime_error}
use solana_cpp_sdk.PublicKey.{find_program_address}

pair_eq :
    (a a' : PublicKey) (b b' : ℕ)
    → ◌≡◌ {A = Result (PublicKey × ℕ)} (ok (a, b)) (ok (a', b'))
    → (a ≡ a') × (b ≡ b')
pair_eq a a' b b' e = (cc, cc)

module _ (sodium : Sodium) (seeds : List (List ℕ)) (program_id address : PublicKey) (bump : ℕ) where
  abbrev Rederives : ℕ → Type 0
  Rederives n =
      (bump < n)
      × (create_program_address sodium (seeds ++ ((bump ∷ []) ∷ [])) program_id ≡ ok address)

  caught-Rederives :
      (n : ℕ) (first : Result PublicKey) (next : Result (PublicKey × ℕ))
      → n < 256
      → create_program_address sodium (seeds ++ ((n ∷ []) ∷ [])) program_id ≡ first
      → (next ≡ ok (address, bump) → Rederives n)
      → catch_runtime_error sodium first n next ≡ ok (address, bump)
      → Rederives (suc n)
  unfolding catch_runtime_error
  caught-Rederives n (ok a) next h e later caught =
      let (same, same') = pair_eq a address n bump caught in
      (omega (arith, same'), rw (← same', ← same) e)
  caught-Rederives n (err x) next h e later caught = elim (Bool-cases (is_runtime_error x)) [
    | inl runtime ↦
        let (below, again) = later (rw runtime at caught) in (omega (arith, below), again)
    | inr other ↦
        let escaped : ◌≡◌ {A = Result (PublicKey × ℕ)} (err x) (ok (address, bump)) =
          rw other at caught in
        cc
  ]

  find_below-Rederives :
      (n : ℕ) → n ≤ 256 → find_below sodium n seeds program_id ≡ ok (address, bump) → Rederives n
  unfolding find_below
  find_below-Rederives zero h e = cc
  find_below-Rederives (suc n) h e =
      let byte : n % 2 ^ 8 ≡ n = omega arith in
      caught-Rederives n (create_program_address sodium (seeds ++ ((n ∷ []) ∷ [])) program_id)
        (find_below sodium n seeds program_id) (omega arith) refl
        (find_below-Rederives n (omega arith)) (rw (find_below, byte) at e)

  -- The address and the bump seed that `findProgramAddressSync` returns belong together: the bump is
  -- a byte, and `createProgramAddressSync` returns the address for the seeds with the bump added.
  pub create-find_program_address :
      find_program_address sodium seeds program_id ≡ ok (address, bump)
      → (bump < 256)
        × (create_program_address sodium (seeds ++ ((bump ∷ []) ∷ [])) program_id ≡ ok address)
  unfolding find_program_address
  create-find_program_address e = find_below-Rederives 256 (omega arith) e
