-- ===== src/Lookups/Known.antt =====
-- src/solana/message_v0.cpp: the accounts that the first pass of `MessageV0::compile` has seen.
use mathlib.Core.Path.{subst}
use solana_cpp_sdk.Base.{◌≡◌, refl, arith, sym, ◌∙◌, List, [], ◌∷◌}
use solana_cpp_sdk.Base.{Bool, true, false, ◌||◌, Bool-cases, Option-cases, inl, inr, ◌⊎◌}
use solana_cpp_sdk.Base.{length, replicate, length-replicate}
use solana_cpp_sdk.Accounts.Laws.{has_key-find_or_add}
use solana_cpp_sdk.Instruction.{AccountMeta, Instruction}
use solana_cpp_sdk.PublicKey.{PublicKey, equals}
use solana_cpp_sdk.PublicKey.Laws.{equals_iff}
use solana_cpp_sdk.LookupTable.{AddressLookupTableAccount}
use solana_cpp_sdk.Lookups.{Pass}
use solana_cpp_sdk.Lookups.{find_in_lookup, process_meta, process_metas}
use solana_cpp_sdk.Lookups.{process_instructions, first_pass, add_static, is_empty}
use solana_cpp_sdk.Lookups.Tables.{AreShort, find_in_lookup-IsEntry}
use solana_cpp_sdk.Lookups.Invariant.{AreInside}
use solana_cpp_sdk.Message.Table.{metas_name, named}
use solana_cpp_sdk.Lookups.Registers.{IsLookup, Known, find_or_add_lookup-Registers}

module _ (tables : List AddressLookupTableAccount) where
  Known-add_static :
      (p : Pass) (pk : PublicKey) (s w : Bool) (k : PublicKey)
      → Known tables p k
      → Known tables (add_static p pk s w) k
  unfolding add_static
  Known-add_static p pk s w k (inl h) =
      inl (has_key-find_or_add p.static_accounts pk s w k ∙ ground (arith, h))
  Known-add_static p pk s w k (inr h) = inr h

  abbrev Taken : Pass → AccountMeta → Pass → Type 0
  Taken p am q =
      IsLookup tables q
      × ((k : PublicKey) → Known tables p k → Known tables q k)
      × Known tables q am.pubkey

  add_static-step :
      (p : Pass) (pk : PublicKey) (s w : Bool)
      → IsLookup tables p
      → IsLookup tables (add_static p pk s w)
        × ((k : PublicKey) → Known tables p k → Known tables (add_static p pk s w) k)
        × Known tables (add_static p pk s w) pk
  unfolding add_static
  add_static-step p pk s w h = (
    h,
    (λ k known. Known-add_static p pk s w k known),
    inl (
        has_key-find_or_add p.static_accounts pk s w pk
        ∙ ground (arith, (equals_iff pk pk).1 refl)),
  )

  process_meta-step :
      (p : Pass) (am : AccountMeta)
      → AreShort tables
      → IsLookup tables p
      → IsLookup tables (process_meta tables p am)
        × ((k : PublicKey) → Known tables p k → Known tables (process_meta tables p am) k)
        × Known tables (process_meta tables p am) am.pubkey
  unfolding process_meta
  process_meta-step p am small h = elim (Bool-cases (am.is_signer || is_empty tables)) [
    | inl e ↦
        subst (Taken p am) (sym (rw (process_meta, e) refl))
          (add_static-step p am.pubkey am.is_signer am.is_writable h)
    | inr e ↦ elim (Option-cases (find_in_lookup 0 tables am.pubkey am.is_writable)) [
      | inl f ↦
          subst (Taken p am) (sym (rw (process_meta, e, f) refl))
            (add_static-step p am.pubkey am.is_signer am.is_writable h)
      | inr (ref, f) ↦
          let entry = find_in_lookup-IsEntry tables am.pubkey am.is_writable ref small f in
          let (k, l, m) =
            find_or_add_lookup-Registers tables p ref.table_idx ref.addr_idx am.is_writable
              am.pubkey h entry in
          subst (Taken p am) (sym (rw (process_meta, e, f) refl))
            (k, l, inr (ref.table_idx, ref.addr_idx, (entry, m)))
    ]
  ]

  Known-before : (p : Pass) (k : PublicKey) → (Known tables p k ⊎ (false ≡ true)) → Known tables p k
  Known-before p k (inl h) = h
  Known-before p k (inr h) = cc

  Known-or_named :
      (p q : Pass) (am : AccountMeta) (metas : List AccountMeta) (k : PublicKey)
      → (Known tables p k → Known tables q k)
      → Known tables q am.pubkey
      → (Known tables p k ⊎ (metas_name (am ∷ metas) k ≡ true))
      → Known tables q k ⊎ (metas_name metas k ≡ true)
  Known-or_named p q am metas k grows seen (inl h) = inl (grows h)
  Known-or_named p q am metas k grows seen (inr h) = elim (Bool-cases (equals am.pubkey k)) [
    | inl e ↦ inl (subst (Known tables q) ((equals_iff am.pubkey k).0 e) seen)
    | inr e ↦ inr (ground (arith, e, h))
  ]

  Known-or_instr :
      (p q r : Pass) (instr : Instruction) (instrs : List Instruction) (k : PublicKey)
      → (Known tables p k → Known tables q k)
      → Known tables q instr.program_id
      → ((Known tables q k ⊎ (metas_name instr.accounts k ≡ true)) → Known tables r k)
      → (Known tables p k ⊎ (named (instr ∷ instrs) k ≡ true))
      → Known tables r k ⊎ (named instrs k ≡ true)
  Known-or_instr p q r instr instrs k grows seen metas (inl h) = inl (metas (inl (grows h)))
  Known-or_instr p q r instr instrs k grows seen metas (inr h) =
      elim (Bool-cases (equals instr.program_id k)) [
        | inl e ↦
            inl (metas (inl (subst (Known tables q) ((equals_iff instr.program_id k).0 e) seen)))
        | inr e ↦ elim (Bool-cases (metas_name instr.accounts k)) [
          | inl f ↦ inl (metas (inr f))
          | inr f ↦ inr (ground (arith, e, f, h))
        ]
      ]

  process_metas-step :
      (p : Pass) (metas : List AccountMeta)
      → AreShort tables
      → IsLookup tables p
      → IsLookup tables (process_metas tables p metas)
        × ((k : PublicKey)
            → (Known tables p k ⊎ (metas_name metas k ≡ true))
            → Known tables (process_metas tables p metas) k)
  unfolding process_metas
  process_metas-step p [] small h = (h, λ k. Known-before p k)
  process_metas-step p (am ∷ metas) small h =
      let (i, grows, seen) = process_meta-step p am small h in
      let (j, rest) = process_metas-step (process_meta tables p am) metas small i in
      (
        j,
        λ k known.
            rest k (Known-or_named p (process_meta tables p am) am metas k (grows k) seen known),
      )

  process_instructions-step :
      (p : Pass) (instrs : List Instruction)
      → AreShort tables
      → IsLookup tables p
      → IsLookup tables (process_instructions tables p instrs)
        × ((k : PublicKey)
            → (Known tables p k ⊎ (named instrs k ≡ true))
            → Known tables (process_instructions tables p instrs) k)
  unfolding process_instructions
  process_instructions-step p [] small h = (h, λ k. Known-before p k)
  process_instructions-step p (instr ∷ instrs) small h =
      let q = add_static p instr.program_id false false in
      let (i, grows, seen) = add_static-step p instr.program_id false false h in
      let (j, metas) = process_metas-step q instr.accounts small i in
      let r = process_metas tables q instr.accounts in
      let (l, rest) = process_instructions-step r instrs small j in
      (l, λ k known. rest k (Known-or_instr p q r instr instrs k (grows k) seen (metas k) known))

AreInside-replicate :
    (tables : List AddressLookupTableAccount)
    → AreInside tables (replicate (length tables) (record { writable_idx = []; readonly_idx = [] }))
AreInside-replicate [] = tt
AreInside-replicate (tbl ∷ tables) = ((tt, tt), AreInside-replicate tables)

-- Where no table has more than 256 addresses, the first pass of the V0 compile ends with one
-- bucket for each table, with every index of a bucket inside its table, and with every registered
-- pair in the bucket of its table.
pub first_pass-IsLookup :
    (tables : List AddressLookupTableAccount) (instrs : List Instruction) (payer : PublicKey)
    → AreShort tables
    → IsLookup tables (first_pass tables instrs payer)
unfolding first_pass
first_pass-IsLookup tables instrs payer small =
    (process_instructions-step tables _ instrs small
      (length-replicate (length tables) _, AreInside-replicate tables, tt)).0

pub first_pass-Known :
    (tables : List AddressLookupTableAccount) (instrs : List Instruction) (payer k : PublicKey)
    → AreShort tables
    → named instrs k ≡ true
    → Known tables (first_pass tables instrs payer) k
unfolding first_pass
first_pass-Known tables instrs payer k small h =
    (process_instructions-step tables _ instrs small
        (length-replicate (length tables) _, AreInside-replicate tables, tt)).1
      k (inr h)
