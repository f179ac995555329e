-- ===== src/Demos/Derived.antt =====
-- examples/pda_example.cpp: what the program prints.
use solana_cpp_sdk.Base.{ℕ, ◌≡◌, refl, false, List, [], ◌∷◌, some, get_elem?, ok, codes}
use solana_cpp_sdk.Sodium.{Sodium, WritesBytes}
use solana_cpp_sdk.PublicKey.{
  PublicKey, IsPublicKey, default_key, from_base58, to_bytes, any_too_long, find_program_address,
  create_with_seed, from_array,
}
use solana_cpp_sdk.PublicKey.Found.{
  find_program_address-IsPublicKey, is_on_curve-find_program_address,
}
use solana_cpp_sdk.PublicKey.Texts.{to_base58-IsPublicKey}
use solana_cpp_sdk.Programs.Keys.{system_program_id-zero}
use solana_cpp_sdk.Programs.System.{system_program_id}
use solana_cpp_sdk.Demos.{returned, out, outcome, printed}
use solana_cpp_sdk.Demos.DerivedAddresses.{main, derive_addresses}

zero_text : from_base58 (codes "11111111111111111111111111111111") ≡ ok default_key
unfolding system_program_id
zero_text = system_program_id-zero

abbrev pub hello_seeds : List (List ℕ)
hello_seeds = codes "hello" ∷ []

abbrev pub vault_seeds : List (List ℕ)
vault_seeds = codes "user-vault" ∷ to_bytes default_key ∷ []

hello_short : any_too_long hello_seeds ≡ false
unfolding any_too_long
hello_short = refl

vault_short : any_too_long vault_seeds ≡ false
unfolding any_too_long to_bytes default_key
vault_short = refl

vault_key :
    (sodium : Sodium)
    → WritesBytes sodium
    → (key : PublicKey) × (create_with_seed sodium default_key (codes "vault") default_key ≡ ok key)
      × IsPublicKey key
unfolding create_with_seed from_array
vault_key sodium writes = (record { bytes = _ }, refl, writes.hash_bytes _)

-- Where libsodium's hashes have 32 bytes and both searches find an address, pda_example returns 0,
-- and its sixth line says that the first address is not on the curve, as it should.
pub main_off_curve :
    (sodium : Sodium) (pda multi : PublicKey) (bump multi_bump : ℕ)
    → WritesBytes sodium
    → find_program_address sodium hello_seeds default_key ≡ ok (pda, bump)
    → find_program_address sodium vault_seeds default_key ≡ ok (multi, multi_bump)
    → (outcome (main sodium) ≡ returned 0)
      × (get_elem? (printed (main sodium)) 5
          ≡ some (out (codes "Is PDA on curve? no (should be 'no')")))
unfolding main derive_addresses outcome printed
main_off_curve sodium pda multi bump multi_bump writes found found' =
    let key =
      find_program_address-IsPublicKey sodium hello_seeds default_key pda bump writes hello_short
        found in
    let key' =
      find_program_address-IsPublicKey sodium vault_seeds default_key multi multi_bump writes
        vault_short found' in
    let (derived, made, derived_key) = vault_key sodium writes in
    let (_, a) = to_base58-IsPublicKey pda key in
    let (_, b) = to_base58-IsPublicKey multi key' in
    let (_, c) = to_base58-IsPublicKey derived derived_key in
    let off =
      is_on_curve-find_program_address sodium hello_seeds default_key pda bump hello_short found in
    (rw (zero_text, found, a, off, made, c, found', b) refl, rw (zero_text, found, a, off) refl)
