-- ===== src/MessageV0/Laws.antt =====
-- `MessageV0::compile`: the static keys and the header.
use solana_cpp_sdk.Base.{ℕ, ◌<◌, ◌≡◌, refl, arith, ◌∙◌, List, [], ◌∷◌, ◌++◌}
use solana_cpp_sdk.Base.{true, ◌||◌, some, get_elem?, length, Result, ok, err, ◌>>=◌}
use solana_cpp_sdk.PublicKey.{PublicKey, equals}
use solana_cpp_sdk.PublicKey.Laws.{equals_iff}
use solana_cpp_sdk.Instruction.{Instruction}
use solana_cpp_sdk.LookupTable.{AddressLookupTableAccount}
use solana_cpp_sdk.Accounts.{AccountInfo, keys}
use solana_cpp_sdk.Accounts.Laws.{signs, writes}
use solana_cpp_sdk.Accounts.Counts.{Faithful, Faithful-ext, Distinct-Faithful}
use solana_cpp_sdk.Message.Table.{signed}
use solana_cpp_sdk.Lookups.{first_pass}
use solana_cpp_sdk.Lookups.Laws.{first_pass-IsPass, signs-first_pass}
use solana_cpp_sdk.MessageV0.{MessageV0, compile, sort_accounts, header_of, select, lookup_keys}
use solana_cpp_sdk.MessageV0.{resolve_instructions, lookup_section}
use solana_cpp_sdk.MessageV0.Order.{reads_signer, reads_writable, sort_accounts-reads}

pub bind_ok {ℓ κ} :
    {A : Type ℓ} {B : Type κ} (r : Result A) (f : A → Result B) {b : B}
    → (r >>= f) ≡ ok b
    → (a : A) × (r ≡ ok a) × (f a ≡ ok b)
bind_ok (ok a) f h = (a, refl, h)
bind_ok (err e) f h = cc

module _ (instrs : List Instruction) (payer : PublicKey) (blockhash : List ℕ)
    (tables : List AddressLookupTableAccount) where
  abbrev pub table : List AccountInfo
  table = (first_pass tables instrs payer).static_accounts

  made : List PublicKey → List PublicKey → Result MessageV0
  made writable readonly = do
    compiled ← resolve_instructions (keys (sort_accounts table) ++ (writable ++ readonly)) instrs
    ok (record {
      header = header_of (sort_accounts table);
      static_account_keys = keys (sort_accounts table);
      recent_blockhash = blockhash;
      instructions = compiled;
      address_table_lookups = lookup_section tables (first_pass tables instrs payer).table_buckets;
    })

  abbrev pub Parts : MessageV0 → Type 0
  Parts msg =
      (msg.static_account_keys ≡ keys (sort_accounts table))
      × (msg.header ≡ header_of (sort_accounts table))
      × (msg.recent_blockhash ≡ blockhash)

  made-Parts : (w r : List PublicKey) (msg : MessageV0) → made w r ≡ ok msg → Parts msg
  unfolding made
  made-Parts w r msg e =
      let (c, _, e') =
        bind_ok (resolve_instructions (keys (sort_accounts table) ++ (w ++ r)) instrs)
          (λ c. ok (record {
            header = header_of (sort_accounts table);
            static_account_keys = keys (sort_accounts table);
            recent_blockhash = blockhash;
            instructions = c;
            address_table_lookups =
                lookup_section tables (first_pass tables instrs payer).table_buckets;
          }))
          e in
      (cc (e'), cc (e'), cc (e'))

  pub compiled-Parts :
      (msg : MessageV0) → compile instrs payer blockhash tables ≡ ok msg → Parts msg
  unfolding compile made
  compiled-Parts msg e =
      let buckets = (first_pass tables instrs payer).table_buckets in
      let (w, _, e₁) =
        bind_ok (lookup_keys (λ b. b.writable_idx) tables buckets)
          (λ w. lookup_keys (λ b. b.readonly_idx) tables buckets >>= λ r. made w r) e in
      let (r, _, e₂) =
        bind_ok (lookup_keys (λ b. b.readonly_idx) tables buckets) (λ r. made w r) e₁ in
      made-Parts w r msg e₂

  table-Faithful : Faithful (λ k. equals payer k || signed instrs k) (writes table) table
  table-Faithful =
      Faithful-ext (signs table) (writes table) (λ k. equals payer k || signed instrs k)
        (writes table) table (signs-first_pass tables instrs payer) (λ k. refl)
        (Distinct-Faithful table (first_pass-IsPass tables payer instrs).table.0)

  -- If the V0 compile makes a message of fewer than 256 static keys, then by its index and the
  -- counters alone a static key reads as a signer exactly if it is the fee payer or signs in some
  -- instruction, and as writable exactly if the table of static accounts has it writable.
  pub compile_reads :
      (msg : MessageV0) (i : ℕ) (k : PublicKey)
      → compile instrs payer blockhash tables ≡ ok msg
      → length msg.static_account_keys < 256
      → get_elem? msg.static_account_keys i ≡ some k
      → (reads_signer msg.header i ≡ (equals payer k || signed instrs k))
        × (reads_writable msg.header (length msg.static_account_keys) i
            ≡ writes (first_pass tables instrs payer).static_accounts k)
  compile_reads msg i k e small there =
      let (ks, h, _) = compiled-Parts msg e in
      rw (h, ks)
        (sort_accounts-reads (λ k. equals payer k || signed instrs k) (writes table) table i k
          table-Faithful (rw ks at small) (rw ks at there))

  head_selected :
      (l : List AccountInfo)
      → get_elem? (keys l) 0 ≡ some payer
      → signs l payer ≡ true
      → writes l payer ≡ true
      → get_elem? (keys (sort_accounts l)) 0 ≡ some payer
  unfolding sort_accounts select keys
  head_selected [] h s w = cc
  head_selected (a ∷ l) h s w =
      let key : a.key ≡ payer = cc in
      let self : equals a.key payer ≡ true = (equals_iff a.key payer).1 key in
      let signer : a.is_signer ≡ true = rw self at s in
      let writer : a.is_writable ≡ true = rw self at w in rw (signer, writer, key)

  -- The fee payer is the first static key of every message that `compile` makes.
  pub compile_payer :
      (msg : MessageV0)
      → compile instrs payer blockhash tables ≡ ok msg
      → get_elem? msg.static_account_keys 0 ≡ some payer
  compile_payer msg e =
      let pass = first_pass-IsPass tables payer instrs in
      let (ks, _, _) = compiled-Parts msg e in
      let self : equals payer payer ≡ true = (equals_iff payer payer).1 refl in
      rw ks (
        head_selected table pass.table.1 (signs-first_pass tables instrs payer payer ∙ ground arith)
          pass.writes_payer)
