-- ===== src/Demos/DerivedAddresses.antt =====
-- examples/pda_example.cpp.
use solana_cpp_sdk.Base.{ℕ, [], ◌∷◌, ◌++◌, codes, if◌then◌else◌}
use solana_cpp_sdk.PublicKey.{
  from_base58, to_base58, to_bytes, find_program_address, is_on_curve, create_with_seed,
}
use solana_cpp_sdk.Rpc.Http.{to_string}
use solana_cpp_sdk.Sodium.{Sodium}
use solana_cpp_sdk.Demos.{Run, returned, ◌>>=◌, ◌>>◌, lift, say, or_exit, em_dash}

module _ (sodium : Sodium) where
  -- The `try` block of `main`.
  unfoldable pub derive_addresses : Run ℕ
  derive_addresses = do
    say (codes "=== Solana C++ SDK " ++ em_dash (codes " PDA Example ==="))
    say []
    program_id ← lift (from_base58 (codes "11111111111111111111111111111111"))
    pda ← lift (find_program_address sodium (codes "hello" ∷ []) program_id)
    pda_text ← lift (to_base58 pda.0)
    say (codes "PDA:  " ++ pda_text)
    say (codes "Bump: " ++ to_string pda.1)
    say []
    let answer = if is_on_curve sodium pda.0 then codes "yes" else codes "no"
    say (codes "Is PDA on curve? " ++ (answer ++ codes " (should be 'no')"))
    say []
    base_key ← lift (from_base58 (codes "11111111111111111111111111111111"))
    derived ← lift (create_with_seed sodium base_key (codes "vault") program_id)
    derived_text ← lift (to_base58 derived)
    say (codes "Derived (createWithSeed): " ++ derived_text)
    say []
    user_key ← lift (from_base58 (codes "11111111111111111111111111111111"))
    multi_pda ←
        lift (find_program_address sodium (codes "user-vault" ∷ to_bytes user_key ∷ []) program_id)
    multi_text ← lift (to_base58 multi_pda.0)
    say (codes "Multi-seed PDA: " ++ multi_text)
    say (codes "Multi-seed bump: " ++ to_string multi_pda.1)
    say []
    say (codes "Done!")
    returned 0

  unfoldable pub main : Run ℕ
  main = or_exit derive_addresses (codes "Error: ") (λ code. returned code)
