-- ===== src/Message/Sizes.antt =====
-- `Message::compile`: how many keys and indices it makes, and where its keys come from.
use solana_cpp_sdk.Base.{
  ℕ, zero, suc, ◌+◌, ◌^◌, ◌≤◌, ◌<◌, ◌≡◌, refl, arith, List, [], ◌∷◌, Bool, true, false,
}
use solana_cpp_sdk.Base.{some, get_elem?, length, All, IsByte, Bool-cases, inl, inr}
use solana_cpp_sdk.PublicKey.{PublicKey, IsPublicKey, equals}
use solana_cpp_sdk.Instruction.{AccountMeta, Instruction}
use solana_cpp_sdk.Accounts.{AccountInfo, find_or_add, keys, upgrade}
use solana_cpp_sdk.Message.{
  CompiledInstruction, register_metas, register_instructions, register_all,
}
use solana_cpp_sdk.Message.Format.{IsShort, Has32Bytes}
use solana_cpp_sdk.Message.Laws.{Resolves, ResolvesMetas}

-- The keys that the instructions name, with repetitions.
abbrev pub places : List Instruction → ℕ
places [] = 0
places (instr ∷ instrs) = suc (length instr.accounts) + places instrs

-- A key of 32 bytes in each place, and a payload of bytes that a compact-u16 counts.
abbrev pub IsMeta : AccountMeta → Type 0
IsMeta am = IsPublicKey am.pubkey

abbrev pub IsInstruction : Instruction → Type 0
IsInstruction instr =
    IsPublicKey instr.program_id
    × (All IsMeta instr.accounts × (All IsByte instr.payload × (length instr.payload < 2 ^ 16)))

pub length-find_or_add :
    (l : List AccountInfo) (pk : PublicKey) (s w : Bool)
    → length (keys (find_or_add l pk s w)) ≤ suc (length (keys l))
unfolding find_or_add keys upgrade
length-find_or_add [] pk s w = omega arith
length-find_or_add (a ∷ l) pk s w = elim (Bool-cases (equals a.key pk)) [
  | inl e ↦ rw e (omega arith)
  | inr e ↦ rw (find_or_add, e) (omega (arith, length-find_or_add l pk s w))
]

pub find_or_add-IsPublicKey :
    (l : List AccountInfo) (pk : PublicKey) (s w : Bool)
    → All IsPublicKey (keys l)
    → IsPublicKey pk
    → All IsPublicKey (keys (find_or_add l pk s w))
unfolding find_or_add keys upgrade
find_or_add-IsPublicKey [] pk s w h k = (k, tt)
find_or_add-IsPublicKey (a ∷ l) pk s w h k = elim (Bool-cases (equals a.key pk)) [
  | inl e ↦ rw e h
  | inr e ↦ rw (find_or_add, e) (h.0, find_or_add-IsPublicKey l pk s w h.1 k)
]

length-register_metas :
    (t : List AccountInfo) (metas : List AccountMeta)
    → length (keys (register_metas t metas)) ≤ length (keys t) + length metas
unfolding register_metas
length-register_metas t [] = omega arith
length-register_metas t (am ∷ metas) = omega (
  arith,
  length-register_metas (find_or_add t am.pubkey am.is_signer am.is_writable) metas,
  length-find_or_add t am.pubkey am.is_signer am.is_writable,
)

length-register_instructions :
    (t : List AccountInfo) (instrs : List Instruction)
    → length (keys (register_instructions t instrs)) ≤ length (keys t) + places instrs
unfolding register_instructions
length-register_instructions t [] = omega arith
length-register_instructions t (instr ∷ instrs) = omega (
  arith,
  length-register_instructions
      (find_or_add (register_metas t instr.accounts) instr.program_id false false) instrs,
  length-find_or_add (register_metas t instr.accounts) instr.program_id false false,
  length-register_metas t instr.accounts,
)

register_metas-IsPublicKey :
    (t : List AccountInfo) (metas : List AccountMeta)
    → All IsPublicKey (keys t)
    → All IsMeta metas
    → All IsPublicKey (keys (register_metas t metas))
unfolding register_metas
register_metas-IsPublicKey t [] h k = h
register_metas-IsPublicKey t (am ∷ metas) h k =
    register_metas-IsPublicKey (find_or_add t am.pubkey am.is_signer am.is_writable) metas
      (find_or_add-IsPublicKey t am.pubkey am.is_signer am.is_writable h k.0) k.1

register_instructions-IsPublicKey :
    (t : List AccountInfo) (instrs : List Instruction)
    → All IsPublicKey (keys t)
    → All IsInstruction instrs
    → All IsPublicKey (keys (register_instructions t instrs))
unfolding register_instructions
register_instructions-IsPublicKey t [] h k = h
register_instructions-IsPublicKey t (instr ∷ instrs) h k =
    register_instructions-IsPublicKey
      (find_or_add (register_metas t instr.accounts) instr.program_id false false) instrs
      (find_or_add-IsPublicKey (register_metas t instr.accounts) instr.program_id false false
        (register_metas-IsPublicKey t instr.accounts h k.0.1.0) k.0.0)
      k.1

no_keys : length (keys []) ≡ 0
unfolding keys
no_keys = refl

module _ (instrs : List Instruction) (payer : PublicKey) where
  pub length-register_all : length (keys (register_all instrs payer)) ≤ suc (places instrs)
  unfolding register_all
  length-register_all = omega (
    arith,
    length-register_instructions (find_or_add [] payer true true) instrs,
    length-find_or_add [] payer true true,
    no_keys,
  )

  pub register_all-IsPublicKey :
      IsPublicKey payer
      → All IsInstruction instrs
      → All IsPublicKey (keys (register_all instrs payer))
  unfolding register_all
  register_all-IsPublicKey h k =
      register_instructions-IsPublicKey (find_or_add [] payer true true) instrs
        (unfold find_or_add keys in (h, tt)) k

-- The keys as a wire message wants them.
pub IsPublicKey-Has32Bytes : (ks : List PublicKey) → All IsPublicKey ks → All Has32Bytes ks
IsPublicKey-Has32Bytes [] h = tt
IsPublicKey-Has32Bytes (k ∷ ks) h = (h.0.0, IsPublicKey-Has32Bytes ks h.1)

pub get_elem?_below :
    (ks : List PublicKey) (i : ℕ) (k : PublicKey) → get_elem? ks i ≡ some k → i < length ks
get_elem?_below [] i k h = cc
get_elem?_below (x ∷ ks) zero k h = omega arith
get_elem?_below (x ∷ ks) (suc i) k h = omega (arith, get_elem?_below ks i k h)

-- The indices lead into the key list, so they are bytes, and there is one for each account.
abbrev pub IsIndexed : CompiledInstruction → Type 0
IsIndexed ci = IsByte ci.program_id_index × (All IsByte ci.account_indices × All IsByte ci.payload)

ResolvesMetas-indices :
    (ks : List PublicKey) (metas : List AccountMeta) (is : List ℕ)
    → length ks ≤ 256
    → ResolvesMetas ks metas is
    → (length is ≡ length metas) × All IsByte is
ResolvesMetas-indices ks [] [] small r = (refl, tt)
ResolvesMetas-indices ks [] (i ∷ is) small r = absurd r
ResolvesMetas-indices ks (am ∷ metas) [] small r = absurd r
ResolvesMetas-indices ks (am ∷ metas) (i ∷ is) small r =
    let below = get_elem?_below ks i am.pubkey r.0 in
    let (same, bytes) = ResolvesMetas-indices ks metas is small r.1 in
    (omega arith, (omega arith, bytes))

-- What the compiled instructions of `Resolves` take over from the instructions.
pub Resolves-compiled :
    (ks : List PublicKey) (instrs : List Instruction) (cis : List CompiledInstruction)
    → length ks ≤ 256
    → places instrs < 2 ^ 16
    → All IsInstruction instrs
    → Resolves ks instrs cis
    → (length cis ≡ length instrs) × (All IsShort cis × All IsIndexed cis)
Resolves-compiled ks [] [] small fits h r = (refl, (tt, tt))
Resolves-compiled ks [] (ci ∷ cis) small fits h r = absurd r
Resolves-compiled ks (instr ∷ instrs) [] small fits h r = absurd r
Resolves-compiled ks (instr ∷ instrs) (ci ∷ cis) small fits h (at, metas, same, rest) =
    let below = get_elem?_below ks ci.program_id_index instr.program_id at in
    let (n, bytes) = ResolvesMetas-indices ks instr.accounts ci.account_indices small metas in
    let (m, (short, indexed)) = Resolves-compiled ks instrs cis small (omega arith) h.1 rest in
    (
      omega arith,
      (
        ((omega arith, rw same (h.0.1.1.1)), short),
        ((omega arith, (bytes, rw same (h.0.1.1.0))), indexed),
      ),
    )
