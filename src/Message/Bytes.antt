-- ===== src/Message/Bytes.antt =====
-- `Message::serialize`: what it writes are bytes.
use solana_cpp_sdk.Base.{ℕ, arith, List, [], ◌∷◌}
use solana_cpp_sdk.Base.{Bool, Bool-cases, inl, inr, u8, ◌+◌}
use solana_cpp_sdk.Base.{length, concat_map, u16, All, All-append, IsByte}
use solana_cpp_sdk.Wire.{write_compact_u16}
use solana_cpp_sdk.Wire.Laws.{length-write_compact_u16}
use solana_cpp_sdk.PublicKey.{PublicKey, IsPublicKey, to_bytes}
use solana_cpp_sdk.Accounts.{AccountInfo, count_u8}
use solana_cpp_sdk.Message.{
  MessageHeader, CompiledInstruction, serialize_header, serialize_keys, serialize_instruction,
  serialize_instructions,
}
use solana_cpp_sdk.Message.Sizes.{IsIndexed}

abbrev pub IsHeader : MessageHeader → Type 0
IsHeader h =
    IsByte h.num_required_signatures
    × (IsByte h.num_readonly_signed_accounts × IsByte h.num_readonly_unsigned_accounts)

pub compact_u16-IsByte : (n : ℕ) → All IsByte (write_compact_u16 (u16 n))
compact_u16-IsByte n = (length-write_compact_u16 (u16 n) (omega arith)).0

pub concat_map-IsByte :
    {A : Type 0} (P : A → Type 0) (f : A → List ℕ)
    → ((a : A) → P a → All IsByte (f a))
    → (as' : List A) → All P as'
    → All IsByte (concat_map f as')
concat_map-IsByte P f each [] h = tt
concat_map-IsByte P f each (a ∷ as') h =
    All-append IsByte (f a) (concat_map f as') (each a h.0) (concat_map-IsByte P f each as' h.1)

pub serialize_header-IsByte : (h : MessageHeader) → IsHeader h → All IsByte (serialize_header h)
unfolding serialize_header
serialize_header-IsByte h k = (k.0, (k.1.0, (k.1.1, tt)))

pub serialize_keys-IsByte :
    (ks : List PublicKey) → All IsPublicKey ks → All IsByte (serialize_keys ks)
unfolding serialize_keys to_bytes
serialize_keys-IsByte ks h =
    All-append IsByte _ _ (compact_u16-IsByte (length ks))
      (concat_map-IsByte IsPublicKey to_bytes (λ k p. p.1) ks h)

serialize_instruction-IsByte :
    (ci : CompiledInstruction) → IsIndexed ci → All IsByte (serialize_instruction ci)
unfolding serialize_instruction
serialize_instruction-IsByte ci h = (
  h.0,
  All-append IsByte _ _ (compact_u16-IsByte (length ci.account_indices)) (
      All-append IsByte ci.account_indices _ h.1.0
        (All-append IsByte _ ci.payload (compact_u16-IsByte (length ci.payload)) h.1.1)),
)

pub serialize_instructions-IsByte :
    (cis : List CompiledInstruction) → All IsIndexed cis → All IsByte (serialize_instructions cis)
unfolding serialize_instructions
serialize_instructions-IsByte cis h =
    All-append IsByte _ _ (compact_u16-IsByte (length cis))
      (concat_map-IsByte IsIndexed serialize_instruction serialize_instruction-IsByte cis h)

-- A counter of the header is a byte.
pub count_u8-IsByte :
    (test : AccountInfo → Bool) (n : ℕ) (l : List AccountInfo)
    → IsByte n
    → IsByte (count_u8 test n l)
unfolding count_u8
count_u8-IsByte test n [] h = h
count_u8-IsByte test n (a ∷ l) h = elim (Bool-cases (test a)) [
  | inl e ↦ rw e (count_u8-IsByte test (u8 (n + 1)) l (omega arith))
  | inr e ↦ rw e (count_u8-IsByte test n l h)
]
