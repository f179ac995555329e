-- ===== src/MessageV0/Total.antt =====
-- src/solana/message_v0.cpp: whether `MessageV0::compile` returns.
use solana_cpp_sdk.Base.{ℕ, zero, suc, ◌≡◌, refl, arith, ◌∙◌, List, [], ◌∷◌, ◌++◌, true, not, ◌&&◌}
use solana_cpp_sdk.Base.{inl, inr, ◌⊎◌, ok}
use solana_cpp_sdk.Accounts.{AccountInfo, keys}
use solana_cpp_sdk.Accounts.Laws.{has_key, index_from-found}
use solana_cpp_sdk.Instruction.{AccountMeta, Instruction}
use solana_cpp_sdk.PublicKey.{PublicKey}
use solana_cpp_sdk.PublicKey.Laws.{equals_iff}
use solana_cpp_sdk.LookupTable.{AddressLookupTableAccount}
use solana_cpp_sdk.Lookups.{TableBucket, first_pass}
use solana_cpp_sdk.Lookups.Tables.{IsEntry, InBucket, AreShort}
use solana_cpp_sdk.Lookups.Invariant.{AreInside}
use solana_cpp_sdk.Lookups.Known.{first_pass-IsLookup, first_pass-Known}
use solana_cpp_sdk.Lookups.Registers.{Known}
use solana_cpp_sdk.Message.Table.{metas_name, named}
use solana_cpp_sdk.Message.{CompiledInstruction}
use solana_cpp_sdk.MessageV0.Groups.{keys-append}
use solana_cpp_sdk.MessageV0.{MessageV0, compile, select, sort_accounts}
use solana_cpp_sdk.MessageV0.{
  header_of, lookup_section, resolve_index, resolve_metas, resolve_instructions,
}
use solana_cpp_sdk.MessageV0.Sides.{has_key-append, grouped, AreWithin, HasAt, lookup_keys_ok}

inside_writable :
    (tables : List AddressLookupTableAccount) (bs : List TableBucket)
    → AreInside tables bs
    → AreWithin (λ b. b.writable_idx) tables bs
inside_writable [] bs h = tt
inside_writable (tbl ∷ tables) [] h = tt
inside_writable (tbl ∷ tables) (b ∷ bs) h = (h.0.0, inside_writable tables bs h.1)

inside_readonly :
    (tables : List AddressLookupTableAccount) (bs : List TableBucket)
    → AreInside tables bs
    → AreWithin (λ b. b.readonly_idx) tables bs
inside_readonly [] bs h = tt
inside_readonly (tbl ∷ tables) [] h = tt
inside_readonly (tbl ∷ tables) (b ∷ bs) h = (h.0.1, inside_readonly tables bs h.1)

InBucket-HasAt :
    (bs : List TableBucket) (ti ai : ℕ)
    → InBucket bs ti ai
    → HasAt (λ b. b.writable_idx) bs ti ai ⊎ HasAt (λ b. b.readonly_idx) bs ti ai
InBucket-HasAt [] ti ai h = absurd h
InBucket-HasAt (b ∷ bs) zero ai h = h
InBucket-HasAt (b ∷ bs) (suc ti) ai h = InBucket-HasAt bs ti ai h

-- A list that has the keys of all instructions resolves them.
module _ (virtual : List PublicKey) where
  resolve_index_ok :
      (k : PublicKey) → has_key virtual k ≡ true → (i : ℕ) × (resolve_index virtual k ≡ ok i)
  unfolding resolve_index
  resolve_index_ok k h =
      let (i, e) = index_from-found virtual 0 k h in (i, rw (resolve_index, e) refl)

  resolve_metas_ok :
      (metas : List AccountMeta)
      → ((k : PublicKey) → metas_name metas k ≡ true → has_key virtual k ≡ true)
      → (is : List ℕ) × (resolve_metas virtual metas ≡ ok is)
  unfolding resolve_metas
  resolve_metas_ok [] covers = ([], refl)
  resolve_metas_ok (am ∷ metas) covers =
      let self = (equals_iff am.pubkey am.pubkey).1 refl in
      let (i, e) = resolve_index_ok am.pubkey (covers am.pubkey (ground (arith, self))) in
      let (is, f) = resolve_metas_ok metas (λ k h. covers k (ground (arith, h))) in
      (i ∷ is, rw (e, f) refl)

  resolve_instructions_ok :
      (instrs : List Instruction)
      → ((k : PublicKey) → named instrs k ≡ true → has_key virtual k ≡ true)
      → (cis : List CompiledInstruction) × (resolve_instructions virtual instrs ≡ ok cis)
  unfolding resolve_instructions
  resolve_instructions_ok [] covers = ([], refl)
  resolve_instructions_ok (instr ∷ instrs) covers =
      let self = (equals_iff instr.program_id instr.program_id).1 refl in
      let (i, e) =
        resolve_index_ok instr.program_id (covers instr.program_id (ground (arith, self))) in
      let (is, f) = resolve_metas_ok instr.accounts (λ k h. covers k (ground (arith, h))) in
      let (cis, g) = resolve_instructions_ok instrs (λ k h. covers k (ground (arith, h))) in
      (
        record { program_id_index = i; account_indices = is; payload = instr.payload } ∷ cis,
        rw (e, f, g) refl,
      )

sort_accounts-has_key :
    (l : List AccountInfo) (k : PublicKey)
    → has_key (keys l) k ≡ true
    → has_key (keys (sort_accounts l)) k ≡ true
unfolding sort_accounts
sort_accounts-has_key l k h =
    let one = select (λ a. a.is_signer && a.is_writable) l in
    let two = select (λ a. a.is_signer && not a.is_writable) l in
    let three = select (λ a. not a.is_signer && a.is_writable) l in
    let four = select (λ a. not a.is_signer && not a.is_writable) l in
    rw
      (
        keys-append one (two ++ (three ++ four)),
        keys-append two (three ++ four),
        keys-append three four,
        has_key-append (keys one) (keys two ++ (keys three ++ keys four)) k,
        has_key-append (keys two) (keys three ++ keys four) k,
        has_key-append (keys three) (keys four) k,
      )
      (grouped l k h)

module _ (tables : List AddressLookupTableAccount) (instrs : List Instruction) (payer : PublicKey)
    (blockhash : List ℕ) where
  covered :
      (w r : List PublicKey)
      → (k : PublicKey) → Known tables (first_pass tables instrs payer) k
      → ((ti ai : ℕ) (j : PublicKey)
          → IsEntry tables ti ai j
          → HasAt (λ b. b.writable_idx) (first_pass tables instrs payer).table_buckets ti ai
          → has_key w j ≡ true)
      → ((ti ai : ℕ) (j : PublicKey)
          → IsEntry tables ti ai j
          → HasAt (λ b. b.readonly_idx) (first_pass tables instrs payer).table_buckets ti ai
          → has_key r j ≡ true)
      → has_key
          (keys (sort_accounts (first_pass tables instrs payer).static_accounts) ++ (w ++ r))
          k
        ≡ true
  covered w r k known writable readonly =
      has_key-append (keys (sort_accounts (first_pass tables instrs payer).static_accounts))
        (w ++ r) k
      ∙ elim known [
        | inl h ↦
            ground
              (arith, sort_accounts-has_key (first_pass tables instrs payer).static_accounts k h)
        | inr (ti, ai, (entry, h)) ↦
            elim (InBucket-HasAt (first_pass tables instrs payer).table_buckets ti ai h) [
              | inl there ↦ ground (arith, has_key-append w r k, writable ti ai k entry there)
              | inr there ↦ ground (arith, has_key-append w r k, readonly ti ai k entry there)
            ]
      ]

  -- Where no table has more than 256 addresses, the V0 compile returns a message on every input:
  -- no account is missing from its list of keys, and no index of a bucket leads outside its
  -- table.
  pub compile_returns :
      AreShort tables → (msg : MessageV0) × (compile instrs payer blockhash tables ≡ ok msg)
  unfolding compile
  compile_returns small =
      let p = first_pass tables instrs payer in
      let (n, inside, stored) = first_pass-IsLookup tables instrs payer small in
      let (w, (e, writable)) =
        lookup_keys_ok (λ b. b.writable_idx) tables p.table_buckets
          (inside_writable tables p.table_buckets inside) in
      let (r, (f, readonly)) =
        lookup_keys_ok (λ b. b.readonly_idx) tables p.table_buckets
          (inside_readonly tables p.table_buckets inside) in
      let (cis, g) =
        resolve_instructions_ok (keys (sort_accounts p.static_accounts) ++ (w ++ r)) instrs (λ k h.
          covered w r k (first_pass-Known tables instrs payer k small h) writable readonly) in
      (
        record {
          header = header_of (sort_accounts p.static_accounts);
          static_account_keys = keys (sort_accounts p.static_accounts);
          recent_blockhash = blockhash;
          instructions = cis;
          address_table_lookups = lookup_section tables p.table_buckets;
        },
        rw (e, f, g) refl,
      )
