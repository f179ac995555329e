-- ===== src/MessageV0/Bounded.antt =====
-- `MessageV0::compile`: how many static keys it makes, and of how many bytes.
use solana_cpp_sdk.Base.{ℕ, suc, ◌+◌, ◌≤◌, ◌≡◌, refl, arith, List, [], ◌∷◌}
use solana_cpp_sdk.Base.{◌++◌, Bool, false, not, ◌&&◌, ◌||◌, length, All}
use solana_cpp_sdk.Base.{All-append, Bool-cases, inl, inr}
use solana_cpp_sdk.Base.{Option-cases, length-append}
use solana_cpp_sdk.PublicKey.{PublicKey, IsPublicKey}
use solana_cpp_sdk.Instruction.{AccountMeta, Instruction}
use solana_cpp_sdk.LookupTable.{AddressLookupTableAccount}
use solana_cpp_sdk.Accounts.{AccountInfo, find_or_add, keys}
use solana_cpp_sdk.Lookups.{
  Pass, add_static, process_meta, process_metas, process_instructions, first_pass, find_in_lookup,
  is_empty,
}
use solana_cpp_sdk.Lookups.Laws.{static-find_or_add_lookup}
use solana_cpp_sdk.Message.Sizes.{
  IsMeta, IsInstruction, places, length-find_or_add, find_or_add-IsPublicKey,
}
use solana_cpp_sdk.MessageV0.{select, sort_accounts}
use solana_cpp_sdk.MessageV0.Groups.{keys-append, length-keys}

-- At most `n` static accounts, each with a key of 32 bytes.
abbrev pub Bounded : ℕ → List AccountInfo → Type 0
Bounded n l = (length (keys l) ≤ n) × All IsPublicKey (keys l)

add-Bounded :
    (n : ℕ) (l : List AccountInfo) (pk : PublicKey) (s w : Bool)
    → Bounded n l
    → IsPublicKey pk
    → Bounded (suc n) (find_or_add l pk s w)
add-Bounded n l pk s w h k =
    (omega (arith, length-find_or_add l pk s w, h.0), find_or_add-IsPublicKey l pk s w h.1 k)

module _ (tables : List AddressLookupTableAccount) where
  meta-Bounded :
      (n : ℕ) (p : Pass) (am : AccountMeta)
      → Bounded n p.static_accounts
      → IsMeta am
      → Bounded (suc n) (process_meta tables p am).static_accounts
  unfolding process_meta add_static
  meta-Bounded n p am h k =
      let more = add-Bounded n p.static_accounts am.pubkey am.is_signer am.is_writable h k in
      elim (Bool-cases (am.is_signer || is_empty tables)) [
        | inl e ↦ rw e more
        | inr e ↦ elim (Option-cases (find_in_lookup 0 tables am.pubkey am.is_writable)) [
          | inl none_ ↦ rw (e, none_) more
          | inr (ref, found) ↦
              rw (e, found, static-find_or_add_lookup p ref.table_idx ref.addr_idx am.is_writable)
                (omega (arith, h.0), h.1)
        ]
      ]

  metas-Bounded :
      (n : ℕ) (p : Pass) (metas : List AccountMeta)
      → Bounded n p.static_accounts
      → All IsMeta metas
      → Bounded (n + length metas) (process_metas tables p metas).static_accounts
  unfolding process_metas
  metas-Bounded n p [] h k = (omega (arith, h.0), h.1)
  metas-Bounded n p (am ∷ metas) h k =
      let (few, whole) =
        metas-Bounded (suc n) (process_meta tables p am) metas (meta-Bounded n p am h k.0) k.1 in
      (omega (arith, few), whole)

  instructions-Bounded :
      (n : ℕ) (p : Pass) (instrs : List Instruction)
      → Bounded n p.static_accounts
      → All IsInstruction instrs
      → Bounded (n + places instrs) (process_instructions tables p instrs).static_accounts
  unfolding process_instructions add_static
  instructions-Bounded n p [] h k = (omega (arith, h.0), h.1)
  instructions-Bounded n p (instr ∷ instrs) h k =
      let start = add_static p instr.program_id false false in
      let first = add-Bounded n p.static_accounts instr.program_id false false h k.0.0 in
      let next = metas-Bounded (suc n) start instr.accounts first k.0.1.0 in
      let (few, whole) =
        instructions-Bounded (suc n + length instr.accounts)
          (process_metas tables start instr.accounts) instrs next k.1 in
      (omega (arith, few), whole)

  pub first_pass-Bounded :
      (instrs : List Instruction) (payer : PublicKey)
      → IsPublicKey payer
      → All IsInstruction instrs
      → Bounded (1 + places instrs) (first_pass tables instrs payer).static_accounts
  unfolding first_pass
  first_pass-Bounded instrs payer h k =
      instructions-Bounded 1 _ instrs (unfold find_or_add keys in (omega arith, (h, tt))) k

select-IsPublicKey :
    (test : AccountInfo → Bool) (l : List AccountInfo)
    → All IsPublicKey (keys l)
    → All IsPublicKey (keys (select test l))
unfolding select keys
select-IsPublicKey test [] h = tt
select-IsPublicKey test (a ∷ l) h = elim (Bool-cases (test a)) [
  | inl e ↦ rw e (h.0, select-IsPublicKey test l h.1)
  | inr e ↦ rw (select, e) (select-IsPublicKey test l h.1)
]

-- The four groups have all accounts between them.
group_sizes :
    (l : List AccountInfo)
    → length (select (λ a. a.is_signer && a.is_writable) l)
        + (length (select (λ a. a.is_signer && not a.is_writable) l)
            + (length (select (λ a. not a.is_signer && a.is_writable) l)
                + length (select (λ a. not a.is_signer && not a.is_writable) l)))
      ≡ length l
unfolding select
group_sizes [] = refl
group_sizes (a ∷ l) =
    let rest = group_sizes l in
    elim (Bool-cases a.is_signer) [
      | inl s ↦ elim (Bool-cases a.is_writable) [
        | inl w ↦ rw (select, s, w) (omega (arith, rest))
        | inr w ↦ rw (select, s, w) (omega (arith, rest))
      ]
      | inr s ↦ elim (Bool-cases a.is_writable) [
        | inl w ↦ rw (select, s, w) (omega (arith, rest))
        | inr w ↦ rw (select, s, w) (omega (arith, rest))
      ]
    ]

length-sort_accounts : (l : List AccountInfo) → length (sort_accounts l) ≡ length l
unfolding sort_accounts
length-sort_accounts l =
    let one = select (λ a. a.is_signer && a.is_writable) l in
    let two = select (λ a. a.is_signer && not a.is_writable) l in
    let three = select (λ a. not a.is_signer && a.is_writable) l in
    let four = select (λ a. not a.is_signer && not a.is_writable) l in
    omega (
      arith,
      group_sizes l,
      length-append one (two ++ (three ++ four)),
      length-append two (three ++ four),
      length-append three four,
    )

sort_accounts-IsPublicKey :
    (l : List AccountInfo) → All IsPublicKey (keys l) → All IsPublicKey (keys (sort_accounts l))
unfolding sort_accounts
sort_accounts-IsPublicKey l h =
    let one = select (λ a. a.is_signer && a.is_writable) l in
    let two = select (λ a. a.is_signer && not a.is_writable) l in
    let three = select (λ a. not a.is_signer && a.is_writable) l in
    let four = select (λ a. not a.is_signer && not a.is_writable) l in
    rw
      (
        keys-append one (two ++ (three ++ four)),
        keys-append two (three ++ four),
        keys-append three four,
      )
      (All-append IsPublicKey (keys one) _ (select-IsPublicKey _ l h) (
        All-append IsPublicKey (keys two) _ (select-IsPublicKey _ l h) (
          All-append IsPublicKey (keys three) (keys four) (select-IsPublicKey _ l h)
            (select-IsPublicKey _ l h))))

pub sort_accounts-Bounded :
    (n : ℕ) (l : List AccountInfo) → Bounded n l → Bounded n (sort_accounts l)
sort_accounts-Bounded n l h = (
  rw (length-keys (sort_accounts l), length-sort_accounts l) (rw (length-keys l) at h.0),
  sort_accounts-IsPublicKey l h.1,
)
