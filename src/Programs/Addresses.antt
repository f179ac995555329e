-- ===== src/Programs/Addresses.antt =====
-- `findAssociatedTokenAddress`: the address that it returns is a key of 32 bytes.
use solana_cpp_sdk.Base.{ℕ, ◌≡◌, refl, arith, false, List, [], ◌∷◌, length, ok}
use solana_cpp_sdk.Base.{ltb, ◌>>=◌}
use solana_cpp_sdk.Sodium.{Sodium, WritesBytes}
use solana_cpp_sdk.PublicKey.{PublicKey, IsPublicKey, any_too_long, to_bytes}
use solana_cpp_sdk.PublicKey.Found.{find_program_address-IsPublicKey}
use solana_cpp_sdk.Programs.Keys.{token_program_id-IsKey, associated_token_program_id-IsKey}
use solana_cpp_sdk.Programs.SplToken.{find_associated_token_address}

pub not_long : (s : List ℕ) → length s ≡ 32 → ltb 32 (length s) ≡ false
not_long s h = ground arith

pub find_associated_token_address-IsPublicKey :
    (sodium : Sodium) (wallet mint address : PublicKey) (bump : ℕ)
    → WritesBytes sodium
    → IsPublicKey wallet
    → IsPublicKey mint
    → find_associated_token_address sodium wallet mint ≡ ok (address, bump)
    → IsPublicKey address
unfolding find_associated_token_address to_bytes
find_associated_token_address-IsPublicKey sodium wallet mint address bump writes w m e =
    let (token, te, tl) = token_program_id-IsKey in
    let (associated, ae, _) = associated_token_program_id-IsKey in
    let seeds = wallet.bytes ∷ token.bytes ∷ mint.bytes ∷ [] in
    let short : any_too_long seeds ≡ false =
      unfold any_too_long in
      rw (not_long wallet.bytes w.0, not_long token.bytes tl, not_long mint.bytes m.0) refl in
    find_program_address-IsPublicKey sodium seeds associated address bump writes short
      (rw (te, ae, ◌>>=◌) at e)
