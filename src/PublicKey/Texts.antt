-- ===== src/PublicKey/Texts.antt =====
-- Keys made of a base58 text, and the text of a key.
use solana_cpp_sdk.Base.{ℕ, List, ◌≡◌, sym, ◌∙◌, ◌==◌, ==_iff, inl, inr}
use solana_cpp_sdk.Base.{length, Bool-cases, ok, err, ◌>>=◌, Error}
use solana_cpp_sdk.Base.{invalid_public_key_input, invalid_base58_character}
use mathlib.Core.Path.{subst}
use solana_cpp_sdk.Base58.Decoded.{decode_lem}
use solana_cpp_sdk.Base58.RoundTrip.{decode-encode}
use solana_cpp_sdk.PublicKey.{PublicKey, IsPublicKey, from_base58, to_base58}

key_not_err : (k : PublicKey) (e : Error) → err e ≡ ok k → ⊥
key_not_err k e h = cc

ok-injective : (a b : PublicKey) → ok a ≡ ok b → a ≡ b
ok-injective a b h = cc

-- The constructor from a text makes keys of 32 bytes only.
pub from_base58-IsPublicKey :
    (text : List ℕ) (k : PublicKey) → from_base58 text ≡ ok k → IsPublicKey k
from_base58-IsPublicKey text k e = elim (decode_lem text) [
  | inl refused ↦
      let thrown : from_base58 text ≡ err invalid_base58_character =
        unfold from_base58 in rw (refused, ◌>>=◌) in
      absurd (key_not_err k invalid_base58_character (sym thrown ∙ e))
  | inr (out, read, bytes) ↦ elim (Bool-cases (length out == 32)) [
    | inl len ↦
        let made : from_base58 text ≡ ok (record { bytes = out }) =
          unfold from_base58 in rw (read, ◌>>=◌, len) in
        subst IsPublicKey (ok-injective (record { bytes = out }) k (sym made ∙ e))
          ((==_iff (length out) 32).0 len, bytes)
    | inr len ↦
        let thrown : from_base58 text ≡ err invalid_public_key_input =
          unfold from_base58 in rw (read, ◌>>=◌, len) in
        absurd (key_not_err k invalid_public_key_input (sym thrown ∙ e))
  ]
]

-- A key of bytes has a text.
pub to_base58-IsPublicKey :
    (k : PublicKey) → IsPublicKey k → (text : List ℕ) × (to_base58 k ≡ ok text)
unfolding to_base58
to_base58-IsPublicKey k h = let (text, written, _) = decode-encode k.bytes h.1 in (text, written)
