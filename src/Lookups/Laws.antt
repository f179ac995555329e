-- ===== src/Lookups/Laws.antt =====
-- The static accounts of the first pass of `MessageV0::compile`.
use solana_cpp_sdk.Base.{
  ℕ, ◌≡◌, refl, arith, ◌∙◌, sym, List, [], ◌∷◌, Bool, true, false, ◌&&◌, ◌||◌,
}
use solana_cpp_sdk.Base.{Bool-cases, Option-cases, inl, inr, ◌⊎◌}
use mathlib.Core.Path.{subst}
use solana_cpp_sdk.PublicKey.{PublicKey, equals}
use solana_cpp_sdk.PublicKey.Laws.{equals_iff}
use solana_cpp_sdk.Instruction.{AccountMeta, Instruction}
use solana_cpp_sdk.LookupTable.{AddressLookupTableAccount}
use solana_cpp_sdk.Accounts.{find_or_add, keys}
use solana_cpp_sdk.Accounts.Laws.{signs, writes, signs-find_or_add}
use solana_cpp_sdk.Accounts.Laws.{writes-find_or_add}
use solana_cpp_sdk.Message.Table.{IsTable, IsTable-find_or_add, metas_sign, signed}
use solana_cpp_sdk.Lookups.{Pass, find_in_lookup, find_or_add_lookup, upgrade_lookup}
use solana_cpp_sdk.Lookups.{add_static, is_empty, process_meta, process_metas, process_instructions}
use solana_cpp_sdk.Lookups.{first_pass}

pub static-find_or_add_lookup :
    (p : Pass) (ti ai : ℕ) (w : Bool)
    → (find_or_add_lookup p ti ai w).static_accounts ≡ p.static_accounts
unfolding find_or_add_lookup
static-find_or_add_lookup p ti ai w =
    elim (Option-cases (upgrade_lookup p.registered_lookups ti ai w)) [
      | inl e ↦ rw (find_or_add_lookup, e)
      | inr (lks, e) ↦ rw (find_or_add_lookup, e)
    ]

module _ (tables : List AddressLookupTableAccount) where
  -- An account is added to the static accounts, or it does not sign and leaves them as they are.
  static-process_meta :
      (p : Pass) (am : AccountMeta)
      → ((am.is_signer ≡ false) × ((process_meta tables p am).static_accounts ≡ p.static_accounts))
        ⊎ ((process_meta tables p am).static_accounts
            ≡ find_or_add p.static_accounts am.pubkey am.is_signer am.is_writable)
  unfolding process_meta add_static
  static-process_meta p am = elim (Bool-cases (am.is_signer || is_empty tables)) [
    | inl e ↦ inr (rw e)
    | inr e ↦ elim (Option-cases (find_in_lookup 0 tables am.pubkey am.is_writable)) [
      | inl f ↦ inr (rw (e, f))
      | inr (ref, f) ↦ inl (
        ground arith,
        rw (e, f) (static-find_or_add_lookup p ref.table_idx ref.addr_idx am.is_writable),
      )
    ]
  ]

  module _ (payer : PublicKey) where
    -- The payer's entry stands in front, signs and is written; no key stands twice.
    pub record IsPass (p : Pass) : Type 0 where
      pub table : IsTable payer p.static_accounts
      pub writes_payer : writes p.static_accounts payer ≡ true

    find_or_add-IsPass :
        (p q : Pass) (pk : PublicKey) (s w : Bool)
        → q.static_accounts ≡ find_or_add p.static_accounts pk s w
        → IsPass p
        → IsPass q
    find_or_add-IsPass p q pk s w e h = record {
      table =
          subst (IsTable payer) (sym e)
            (IsTable-find_or_add payer p.static_accounts pk s w h.table);
      writes_payer =
          rw e
            (writes-find_or_add p.static_accounts pk s w payer ∙ rw h.writes_payer (ground arith));
    }

    process_meta-IsPass :
        (p : Pass) (am : AccountMeta) → IsPass p → IsPass (process_meta tables p am)
    process_meta-IsPass p am h = elim (static-process_meta p am) [
      | inl (_, e) ↦ record {
        table = subst (IsTable payer) (sym e) h.table;
        writes_payer = rw e h.writes_payer;
      }
      | inr e ↦
          find_or_add-IsPass p (process_meta tables p am) am.pubkey am.is_signer am.is_writable e h
    ]

    process_metas-IsPass :
        (p : Pass) (metas : List AccountMeta) → IsPass p → IsPass (process_metas tables p metas)
    unfolding process_metas
    process_metas-IsPass p [] h = h
    process_metas-IsPass p (am ∷ metas) h =
        process_metas-IsPass (process_meta tables p am) metas (process_meta-IsPass p am h)

    process_instructions-IsPass :
        (p : Pass) (instrs : List Instruction)
        → IsPass p
        → IsPass (process_instructions tables p instrs)
    unfolding process_instructions
    process_instructions-IsPass p [] h = h
    process_instructions-IsPass p (instr ∷ instrs) h =
        process_instructions-IsPass
          (process_metas tables (add_static p instr.program_id false false) instr.accounts) instrs
          (process_metas-IsPass (add_static p instr.program_id false false) instr.accounts (
            find_or_add-IsPass p (add_static p instr.program_id false false) instr.program_id false
              false (unfold add_static in refl) h))

    pub first_pass-IsPass : (instrs : List Instruction) → IsPass (first_pass tables instrs payer)
    unfolding first_pass
    first_pass-IsPass instrs = process_instructions-IsPass _ instrs (
        unfold find_or_add keys in
        record {
          table = ((tt, tt), refl);
          writes_payer = ground (arith, (equals_iff payer payer).1 refl);
        })

  signs-process_meta :
      (p : Pass) (am : AccountMeta) (k : PublicKey)
      → signs (process_meta tables p am).static_accounts k
        ≡ (signs p.static_accounts k || (equals am.pubkey k && am.is_signer))
  signs-process_meta p am k = elim (static-process_meta p am) [
    | inl (silent, e) ↦ rw (e, silent) (ground arith)
    | inr e ↦
        rw e (
          signs-find_or_add p.static_accounts am.pubkey am.is_signer am.is_writable k
          ∙ ground arith)
  ]

  signs-process_metas :
      (p : Pass) (metas : List AccountMeta) (k : PublicKey)
      → signs (process_metas tables p metas).static_accounts k
        ≡ (signs p.static_accounts k || metas_sign metas k)
  unfolding process_metas
  signs-process_metas p [] k = ground arith
  signs-process_metas p (am ∷ metas) k =
      signs-process_metas (process_meta tables p am) metas k
      ∙ rw (signs-process_meta p am k) (ground arith)

  signs-process_instructions :
      (p : Pass) (instrs : List Instruction) (k : PublicKey)
      → signs (process_instructions tables p instrs).static_accounts k
        ≡ (signs p.static_accounts k || signed instrs k)
  unfolding process_instructions
  signs-process_instructions p [] k = ground arith
  signs-process_instructions p (instr ∷ instrs) k =
      signs-process_instructions
        (process_metas tables (add_static p instr.program_id false false) instr.accounts) instrs k
      ∙ rw (signs-process_metas (add_static p instr.program_id false false) instr.accounts k) (
          unfold add_static in
          rw (signs-find_or_add p.static_accounts instr.program_id false false k) (ground arith))

  pub signs-first_pass :
      (instrs : List Instruction) (payer k : PublicKey)
      → signs (first_pass tables instrs payer).static_accounts k
        ≡ (equals payer k || signed instrs k)
  unfolding first_pass
  signs-first_pass instrs payer k =
      signs-process_instructions _ instrs k ∙ unfold find_or_add in ground arith
