-- ===== src/Message/Table.antt =====
-- The account table of `compile`, described by what the instructions name.
use solana_cpp_sdk.Base.{◌≡◌, refl, arith, ◌∙◌, List, [], ◌∷◌, Bool, true, false, ◌&&◌, ◌||◌}
use solana_cpp_sdk.Base.{some, get_elem?}
use solana_cpp_sdk.PublicKey.{PublicKey, equals}
use solana_cpp_sdk.Instruction.{AccountMeta, Instruction}
use solana_cpp_sdk.Accounts.{AccountInfo, find_or_add, keys}
use solana_cpp_sdk.Accounts.Laws.{Distinct, has_key, signs, writes, has_key-find_or_add}
use solana_cpp_sdk.Accounts.Laws.{signs-find_or_add, writes-find_or_add, Distinct-find_or_add}
use solana_cpp_sdk.Accounts.Laws.{head-find_or_add}
use solana_cpp_sdk.Message.{register_metas, register_instructions, register_all}

abbrev pub metas_name : List AccountMeta → PublicKey → Bool
metas_name [] k = false
metas_name (am ∷ metas) k = equals am.pubkey k || metas_name metas k

abbrev pub metas_sign : List AccountMeta → PublicKey → Bool
metas_sign [] k = false
metas_sign (am ∷ metas) k = (equals am.pubkey k && am.is_signer) || metas_sign metas k

abbrev pub metas_write : List AccountMeta → PublicKey → Bool
metas_write [] k = false
metas_write (am ∷ metas) k = (equals am.pubkey k && am.is_writable) || metas_write metas k

-- The instructions name the key, as a program or an account; sign with it; write to it.
abbrev pub named : List Instruction → PublicKey → Bool
named [] k = false
named (instr ∷ instrs) k =
    (metas_name instr.accounts k || equals instr.program_id k) || named instrs k

abbrev pub signed : List Instruction → PublicKey → Bool
signed [] k = false
signed (instr ∷ instrs) k = metas_sign instr.accounts k || signed instrs k

abbrev pub written : List Instruction → PublicKey → Bool
written [] k = false
written (instr ∷ instrs) k = metas_write instr.accounts k || written instrs k

has_key-metas :
    (t : List AccountInfo) (metas : List AccountMeta) (k : PublicKey)
    → has_key (keys (register_metas t metas)) k ≡ (has_key (keys t) k || metas_name metas k)
unfolding register_metas
has_key-metas t [] k = ground arith
has_key-metas t (am ∷ metas) k = ground (
  arith,
  has_key-metas (find_or_add t am.pubkey am.is_signer am.is_writable) metas k,
  has_key-find_or_add t am.pubkey am.is_signer am.is_writable k,
)

signs-metas :
    (t : List AccountInfo) (metas : List AccountMeta) (k : PublicKey)
    → signs (register_metas t metas) k ≡ (signs t k || metas_sign metas k)
unfolding register_metas
signs-metas t [] k = ground arith
signs-metas t (am ∷ metas) k =
    signs-metas (find_or_add t am.pubkey am.is_signer am.is_writable) metas k
    ∙ rw (signs-find_or_add t am.pubkey am.is_signer am.is_writable k) (ground arith)

writes-metas :
    (t : List AccountInfo) (metas : List AccountMeta) (k : PublicKey)
    → writes (register_metas t metas) k ≡ (writes t k || metas_write metas k)
unfolding register_metas
writes-metas t [] k = ground arith
writes-metas t (am ∷ metas) k =
    writes-metas (find_or_add t am.pubkey am.is_signer am.is_writable) metas k
    ∙ rw (writes-find_or_add t am.pubkey am.is_signer am.is_writable k) (ground arith)

has_key-instructions :
    (t : List AccountInfo) (instrs : List Instruction) (k : PublicKey)
    → has_key (keys (register_instructions t instrs)) k ≡ (has_key (keys t) k || named instrs k)
unfolding register_instructions
has_key-instructions t [] k = ground arith
has_key-instructions t (instr ∷ instrs) k =
    has_key-instructions
      (find_or_add (register_metas t instr.accounts) instr.program_id false false) instrs k
    ∙ rw
        (
          has_key-find_or_add (register_metas t instr.accounts) instr.program_id false false k,
          has_key-metas t instr.accounts k,
        )
        (ground arith)

signs-instructions :
    (t : List AccountInfo) (instrs : List Instruction) (k : PublicKey)
    → signs (register_instructions t instrs) k ≡ (signs t k || signed instrs k)
unfolding register_instructions
signs-instructions t [] k = ground arith
signs-instructions t (instr ∷ instrs) k =
    signs-instructions (find_or_add (register_metas t instr.accounts) instr.program_id false false)
      instrs k
    ∙ rw
        (
          signs-find_or_add (register_metas t instr.accounts) instr.program_id false false k,
          signs-metas t instr.accounts k,
        )
        (ground arith)

writes-instructions :
    (t : List AccountInfo) (instrs : List Instruction) (k : PublicKey)
    → writes (register_instructions t instrs) k ≡ (writes t k || written instrs k)
unfolding register_instructions
writes-instructions t [] k = ground arith
writes-instructions t (instr ∷ instrs) k =
    writes-instructions (find_or_add (register_metas t instr.accounts) instr.program_id false false)
      instrs k
    ∙ rw
        (
          writes-find_or_add (register_metas t instr.accounts) instr.program_id false false k,
          writes-metas t instr.accounts k,
        )
        (ground arith)

-- What the table keeps while accounts are added: one entry for each key, the payer's in front.
abbrev pub IsTable : PublicKey → List AccountInfo → Type 0
IsTable payer t = Distinct (keys t) × (get_elem? (keys t) 0 ≡ some payer)

pub IsTable-find_or_add :
    (payer : PublicKey) (t : List AccountInfo) (pk : PublicKey) (s w : Bool)
    → IsTable payer t
    → IsTable payer (find_or_add t pk s w)
IsTable-find_or_add payer [] pk s w h = unfold keys in cc (h.1)
IsTable-find_or_add payer (a ∷ t) pk s w h =
    (Distinct-find_or_add (a ∷ t) pk s w h.0, head-find_or_add a t pk s w ∙ (unfold keys in h.1))

IsTable-metas :
    (payer : PublicKey) (t : List AccountInfo) (metas : List AccountMeta)
    → IsTable payer t
    → IsTable payer (register_metas t metas)
unfolding register_metas
IsTable-metas payer t [] h = h
IsTable-metas payer t (am ∷ metas) h =
    IsTable-metas payer (find_or_add t am.pubkey am.is_signer am.is_writable) metas
      (IsTable-find_or_add payer t am.pubkey am.is_signer am.is_writable h)

IsTable-instructions :
    (payer : PublicKey) (t : List AccountInfo) (instrs : List Instruction)
    → IsTable payer t
    → IsTable payer (register_instructions t instrs)
unfolding register_instructions
IsTable-instructions payer t [] h = h
IsTable-instructions payer t (instr ∷ instrs) h =
    IsTable-instructions payer
      (find_or_add (register_metas t instr.accounts) instr.program_id false false) instrs
      (IsTable-find_or_add payer (register_metas t instr.accounts) instr.program_id false false
        (IsTable-metas payer t instr.accounts h))

module _ (instrs : List Instruction) (payer : PublicKey) where
  pub register_all-IsTable : IsTable payer (register_all instrs payer)
  unfolding register_all
  register_all-IsTable =
      IsTable-instructions payer (find_or_add [] payer true true) instrs
        (unfold find_or_add keys in ((tt, tt), refl))

  pub has_key-register_all :
      (k : PublicKey)
      → has_key (keys (register_all instrs payer)) k ≡ (equals payer k || named instrs k)
  unfolding register_all
  has_key-register_all k =
      has_key-instructions (find_or_add [] payer true true) instrs k
      ∙ unfold find_or_add keys in ground arith

  pub signs-register_all :
      (k : PublicKey) → signs (register_all instrs payer) k ≡ (equals payer k || signed instrs k)
  unfolding register_all
  signs-register_all k =
      signs-instructions (find_or_add [] payer true true) instrs k
      ∙ unfold find_or_add in ground arith

  pub writes-register_all :
      (k : PublicKey) → writes (register_all instrs payer) k ≡ (equals payer k || written instrs k)
  unfolding register_all
  writes-register_all k =
      writes-instructions (find_or_add [] payer true true) instrs k
      ∙ unfold find_or_add in ground arith
