-- ===== src/MessageV0/Resolve.antt =====
-- `resolveIndex` of src/solana/message_v0.cpp: where the indices of a V0 message lead.
use solana_cpp_sdk.Base.{ℕ, ◌+◌, ◌≤◌, ◌≡◌, refl, List, [], ◌∷◌, ◌++◌, true}
use solana_cpp_sdk.Base.{
  some, get_elem?, length, ok, err, account_not_found, ◌>>=◌, Bool-cases, inl, inr,
}
use solana_cpp_sdk.Base.{Option-cases}
use mathlib.Core.Path.{subst}
use solana_cpp_sdk.PublicKey.{PublicKey, equals}
use solana_cpp_sdk.Instruction.{AccountMeta, Instruction}
use solana_cpp_sdk.LookupTable.{AddressLookupTableAccount}
use solana_cpp_sdk.Accounts.{index_from, keys}
use solana_cpp_sdk.Accounts.Laws.{has_key}
use solana_cpp_sdk.Message.{CompiledInstruction}
use solana_cpp_sdk.Message.Laws.{Resolves, ResolvesMetas, program-Resolves}
use solana_cpp_sdk.Lookups.{first_pass}
use solana_cpp_sdk.MessageV0.{
  MessageV0, compile, resolve_index, resolve_metas, resolve_instructions,
}
use solana_cpp_sdk.MessageV0.{lookup_keys, sort_accounts, header_of, lookup_section}
use solana_cpp_sdk.MessageV0.Laws.{bind_ok}

ok-injective : {A : Type 0} (a b : A) → ok a ≡ ok b → a ≡ b
ok-injective a b e = cc

has_key-index_from :
    (n : ℕ) (ks : List PublicKey) (pk : PublicKey) (i : ℕ)
    → index_from n ks pk ≡ some i
    → has_key ks pk ≡ true
unfolding index_from
has_key-index_from n [] pk i e = cc
has_key-index_from n (k ∷ ks) pk i e = elim (Bool-cases (equals k pk)) [
  | inl same ↦ rw same
  | inr other ↦ rw other (has_key-index_from (n + 1) ks pk i (rw (index_from, other) at e))
]

abbrev compiled : Instruction → ℕ → List ℕ → CompiledInstruction
compiled instr program accounts = record {
  program_id_index = program;
  account_indices = accounts;
  payload = instr.payload;
}

module _ (ks : List PublicKey) (small : length ks ≤ 256) where
  resolve_index_lem :
      (pk : PublicKey) (i : ℕ) → resolve_index ks pk ≡ ok i → get_elem? ks i ≡ some pk
  unfolding resolve_index
  resolve_index_lem pk i e = elim (Option-cases (index_from 0 ks pk)) [
    | inl absent ↦
        let refused : err account_not_found ≡ ok i = rw (resolve_index, absent) at e in cc
    | inr (j, found) ↦
        let same : j ≡ i = ok-injective j i (rw (resolve_index, found) at e) in
        subst (λ x. get_elem? ks x ≡ some pk) same
          (program-Resolves ks pk j small (has_key-index_from 0 ks pk j found) found)
  ]

  resolve_metas-Resolves :
      (metas : List AccountMeta) (is : List ℕ)
      → resolve_metas ks metas ≡ ok is
      → ResolvesMetas ks metas is
  unfolding resolve_metas
  resolve_metas-Resolves [] is e =
      let same : [] ≡ is = ok-injective [] is e in subst (ResolvesMetas ks []) same tt
  resolve_metas-Resolves (am ∷ metas) is e =
      let (i, head, e₁) =
        bind_ok (resolve_index ks am.pubkey) (λ i. resolve_metas ks metas >>= λ is. ok (i ∷ is))
          e in
      let (rest, tail, e₂) = bind_ok (resolve_metas ks metas) (λ is. ok (i ∷ is)) e₁ in
      subst (ResolvesMetas ks (am ∷ metas)) (ok-injective (i ∷ rest) is e₂)
        (resolve_index_lem am.pubkey i head, resolve_metas-Resolves metas rest tail)

  resolve_instructions-Resolves :
      (instrs : List Instruction) (cis : List CompiledInstruction)
      → resolve_instructions ks instrs ≡ ok cis
      → Resolves ks instrs cis
  unfolding resolve_instructions
  resolve_instructions-Resolves [] cis e = subst (Resolves ks []) (ok-injective [] cis e) tt
  resolve_instructions-Resolves (instr ∷ instrs) cis e =
      let (program, head, e₁) =
        bind_ok (resolve_index ks instr.program_id)
          (λ program. resolve_metas ks instr.accounts >>= λ accounts.
            resolve_instructions ks instrs >>= λ cis. ok (compiled instr program accounts ∷ cis))
          e in
      let (accounts, metas, e₂) =
        bind_ok (resolve_metas ks instr.accounts)
          (λ accounts.
            resolve_instructions ks instrs >>= λ cis. ok (compiled instr program accounts ∷ cis))
          e₁ in
      let (rest, tail, e₃) =
        bind_ok (resolve_instructions ks instrs) (λ cis. ok (compiled instr program accounts ∷ cis))
          e₂ in
      subst (Resolves ks (instr ∷ instrs))
        (ok-injective (compiled instr program accounts ∷ rest) cis e₃)
        (
          resolve_index_lem instr.program_id program head,
          resolve_metas-Resolves instr.accounts accounts metas,
          refl,
          resolve_instructions-Resolves instrs rest tail,
        )

-- If compile makes a V0 message, w and r are the accounts that its buckets have as writable and as
-- readonly, and these with the static keys are at most 256, then each compiled instruction has the
-- payload of its instruction, and its indices lead to the instruction's program and accounts, in
-- their order, in the static keys followed by w and r; the lookup section is made of the same
-- buckets.
pub compile-Resolves_v0 :
    (instrs : List Instruction) (payer : PublicKey) (blockhash : List ℕ)
    (tables : List AddressLookupTableAccount) (msg : MessageV0) (w r : List PublicKey)
    → compile instrs payer blockhash tables ≡ ok msg
    → lookup_keys (λ b. b.writable_idx) tables (first_pass tables instrs payer).table_buckets ≡ ok w
    → lookup_keys (λ b. b.readonly_idx) tables (first_pass tables instrs payer).table_buckets ≡ ok r
    → length (msg.static_account_keys ++ (w ++ r)) ≤ 256
    → Resolves (msg.static_account_keys ++ (w ++ r)) instrs msg.instructions
      × (msg.address_table_lookups
          ≡ lookup_section tables (first_pass tables instrs payer).table_buckets)
unfolding compile
compile-Resolves_v0 instrs payer blockhash tables msg w r e hw hr small =
    let ordered = sort_accounts (first_pass tables instrs payer).static_accounts in
    let message : List CompiledInstruction → MessageV0 = λ c. record {
      header = header_of ordered;
      static_account_keys = keys ordered;
      recent_blockhash = blockhash;
      instructions = c;
      address_table_lookups = lookup_section tables (first_pass tables instrs payer).table_buckets;
    } in
    let (c, made, e') =
      bind_ok (resolve_instructions (keys ordered ++ (w ++ r)) instrs) (λ c. ok (message c))
        (rw (compile, hw, hr, ◌>>=◌) at e) in
    subst
      (λ m.
        length (m.static_account_keys ++ (w ++ r)) ≤ 256
        → Resolves (m.static_account_keys ++ (w ++ r)) instrs m.instructions
          × (m.address_table_lookups
              ≡ lookup_section tables (first_pass tables instrs payer).table_buckets))
      (ok-injective (message c) msg e')
      (λ fits. (resolve_instructions-Resolves (keys ordered ++ (w ++ r)) fits instrs c made, refl))
      small
