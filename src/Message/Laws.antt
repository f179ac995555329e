-- ===== src/Message/Laws.antt =====
-- `Message::compile`: the key list, the header and the compiled instructions.
use solana_cpp_sdk.Base.{ℕ, ◌+◌, ◌%◌, ◌≤◌, ◌≡◌, refl, arith, ap, ◌∙◌, List, [], ◌∷◌, Bool}
use solana_cpp_sdk.Base.{true, not, ◌&&◌, ◌||◌, some, get_elem?, length, ok, ◌>>=◌}
use solana_cpp_sdk.Base.{sym}
use mathlib.Core.Path.{subst}
use solana_cpp_sdk.PublicKey.{PublicKey, equals}
use solana_cpp_sdk.PublicKey.Laws.{equals_iff}
use solana_cpp_sdk.Instruction.{AccountMeta, Instruction}
use solana_cpp_sdk.Accounts.{keys, index_from, count_u8}
use solana_cpp_sdk.Accounts.Laws.{Distinct, has_key, signs, writes, index_from-has_key}
use solana_cpp_sdk.Accounts.Laws.{index_from-found}
use solana_cpp_sdk.Accounts.Counts.{count_keys, count_u8-count_keys, Distinct-Faithful}
use solana_cpp_sdk.Accounts.Counts.{Faithful-ext}
use solana_cpp_sdk.Message.{Message, CompiledInstruction, compile, compile_instructions}
use solana_cpp_sdk.Message.{compile_instruction, account_indices_of, push_index, program_index_of}
use solana_cpp_sdk.Message.{register_all, header_of}
use solana_cpp_sdk.Message.Table.{named, signed, written, metas_name, register_all-IsTable}
use solana_cpp_sdk.Message.Table.{has_key-register_all, signs-register_all, writes-register_all}

some-injective : (a b : ℕ) → some a ≡ some b → a ≡ b
some-injective a b e = cc

ok-injective : (a b : Message) → ok a ≡ ok b → a ≡ b
ok-injective a b e = cc

-- Each index stands for the account of the instruction at its place.
abbrev pub ResolvesMetas : List PublicKey → List AccountMeta → List ℕ → Type 0
ResolvesMetas ks [] [] = Unit
ResolvesMetas ks [] (i ∷ is) = ⊥
ResolvesMetas ks (am ∷ metas) [] = ⊥
ResolvesMetas ks (am ∷ metas) (i ∷ is) =
    (get_elem? ks i ≡ some am.pubkey) × ResolvesMetas ks metas is

-- The compiled instructions are the instructions, with indices into `ks` for keys.
abbrev pub Resolves : List PublicKey → List Instruction → List CompiledInstruction → Type 0
Resolves ks [] [] = Unit
Resolves ks [] (ci ∷ cis) = ⊥
Resolves ks (instr ∷ instrs) [] = ⊥
Resolves ks (instr ∷ instrs) (ci ∷ cis) =
    (get_elem? ks ci.program_id_index ≡ some instr.program_id)
    × ResolvesMetas ks instr.accounts ci.account_indices
    × (ci.payload ≡ instr.payload)
    × Resolves ks instrs cis

module _ (ks : List PublicKey) where
  account_indices-Resolves :
      (metas : List AccountMeta)
      → length ks ≤ 256
      → ((k : PublicKey) → metas_name metas k ≡ true → has_key ks k ≡ true)
      → ResolvesMetas ks metas (account_indices_of ks metas)
  unfolding account_indices_of push_index
  account_indices-Resolves [] small covers = tt
  account_indices-Resolves (am ∷ metas) small covers =
      let self : equals am.pubkey am.pubkey ≡ true = (equals_iff _ _).1 refl in
      let (j, found, there) =
        index_from-has_key ks 0 am.pubkey (omega arith) (covers am.pubkey (ground arith)) in
      let at : 0 + j ≡ j = omega arith in
      rw (found, at) (there, account_indices-Resolves metas small (λ k h. covers k (ground arith)))

  pub program-Resolves :
      (pk : PublicKey) (j : ℕ)
      → length ks ≤ 256
      → has_key ks pk ≡ true
      → index_from 0 ks pk ≡ some j
      → get_elem? ks j ≡ some pk
  program-Resolves pk j small h e =
      let (i, found, there) = index_from-has_key ks 0 pk (omega arith) h in
      let at : 0 + i ≡ i = omega arith in
      let same : i ≡ j = some-injective i j (ap some (sym at) ∙ sym found ∙ e) in
      subst (λ t. get_elem? ks t ≡ some pk) same there

  compile_instructions_lem :
      (instrs : List Instruction)
      → ((k : PublicKey) → named instrs k ≡ true → has_key ks k ≡ true)
      → (cis : List CompiledInstruction) × (compile_instructions ks instrs ≡ ok cis)
        × (length ks ≤ 256 → Resolves ks instrs cis)
  unfolding compile_instructions compile_instruction program_index_of
  compile_instructions_lem [] covers = ([], refl, λ _. tt)
  compile_instructions_lem (instr ∷ instrs) covers =
      let self : equals instr.program_id instr.program_id ≡ true = (equals_iff _ _).1 refl in
      let here : has_key ks instr.program_id ≡ true = covers instr.program_id (ground arith) in
      let (j, found) = index_from-found ks 0 instr.program_id here in
      let (cis, rest, resolves) =
        compile_instructions_lem instrs (λ k h. covers k (ground arith)) in
      (
        record {
          program_id_index = j;
          account_indices = account_indices_of ks instr.accounts;
          payload = instr.payload;
        }
            ∷ cis,
        rw (found, program_index_of, ◌>>=◌, rest),
        λ small. (
          program-Resolves instr.program_id j small here found,
          account_indices-Resolves instr.accounts small (λ k h. covers k (ground arith)),
          refl,
          resolves small,
        ),
      )

module _ (instrs : List Instruction) (payer : PublicKey) (blockhash : List ℕ) where
  covered :
      (k : PublicKey) → named instrs k ≡ true → has_key (keys (register_all instrs payer)) k ≡ true
  covered k h = has_key-register_all instrs payer k ∙ ground arith

  -- `compile` succeeds on every input, with the keys of the account table.
  pub compile_table :
      (msg : Message) × (compile instrs payer blockhash ≡ ok msg)
      × (msg.account_keys ≡ keys (register_all instrs payer))
      × (msg.header ≡ header_of (register_all instrs payer))
      × (msg.recent_blockhash ≡ blockhash)
      × (length msg.account_keys ≤ 256 → Resolves msg.account_keys instrs msg.instructions)
  unfolding compile
  compile_table =
      let (cis, e, r) =
        compile_instructions_lem (keys (register_all instrs payer)) instrs covered in
      (
        record {
          header = header_of (register_all instrs payer);
          account_keys = keys (register_all instrs payer);
          recent_blockhash = blockhash;
          instructions = cis;
        },
        rw (e, ◌>>=◌),
        refl,
        refl,
        refl,
        r,
      )

  -- The legacy compile returns a message on every input; its key list starts with the fee payer,
  -- names no key twice, and has exactly the fee payer and the programs and accounts of the
  -- instructions.
  pub compile_keys :
      (msg : Message) × (compile instrs payer blockhash ≡ ok msg)
      × (get_elem? msg.account_keys 0 ≡ some payer)
      × Distinct msg.account_keys
      × ((k : PublicKey) → has_key msg.account_keys k ≡ (equals payer k || named instrs k))
  compile_keys =
      let (msg, e, ks, h, b, r) = compile_table in
      let (distinct, first) = register_all-IsTable instrs payer in
      (msg, e, rw ks first, rw ks distinct, λ k. rw ks (has_key-register_all instrs payer k))

  abbrev pub signer : PublicKey → Bool
  signer k = equals payer k || signed instrs k

  abbrev pub writable : PublicKey → Bool
  writable k = equals payer k || written instrs k

  pub counted :
      (test : Bool → Bool → Bool)
      → count_u8 (λ a. test a.is_signer a.is_writable) 0 (register_all instrs payer)
        ≡ count_keys (λ k. test (signer k) (writable k)) (keys (register_all instrs payer)) % 256
  counted test =
      count_u8-count_keys test signer writable 0 (register_all instrs payer) (omega arith) (
        Faithful-ext (signs (register_all instrs payer)) (writes (register_all instrs payer)) signer
          writable (register_all instrs payer) (signs-register_all instrs payer)
          (writes-register_all instrs payer)
          (Distinct-Faithful (register_all instrs payer) (register_all-IsTable instrs payer).0))
      ∙ omega arith

  -- The counters of the legacy header are, modulo 256, the numbers of keys that sign, that sign
  -- without being written, and that do neither; a key signs, or is written, if it is the fee payer
  -- or some instruction says so.
  pub compile_header :
      (msg : Message) × (compile instrs payer blockhash ≡ ok msg)
      × (msg.header.num_required_signatures ≡ count_keys signer msg.account_keys % 256)
      × (msg.header.num_readonly_signed_accounts
          ≡ count_keys (λ k. signer k && not (writable k)) msg.account_keys % 256)
      × (msg.header.num_readonly_unsigned_accounts
          ≡ count_keys (λ k. not (signer k) && not (writable k)) msg.account_keys % 256)
  compile_header =
      let (msg, e, ks, h, b, r) = compile_table in
      (
        msg,
        e,
        rw (h, ks) (unfold header_of in counted (λ s w. s)),
        rw (h, ks) (unfold header_of in counted (λ s w. s && not w)),
        rw (h, ks) (unfold header_of in counted (λ s w. not s && not w)),
      )

  -- If compile makes a legacy message of at most 256 keys, each compiled instruction has the
  -- payload of its instruction, and its indices lead to the instruction's program and accounts, in
  -- their order.
  pub compile-Resolves :
      (msg : Message)
      → compile instrs payer blockhash ≡ ok msg
      → length msg.account_keys ≤ 256
      → Resolves msg.account_keys instrs msg.instructions
  compile-Resolves msg made small =
      let (msg', e, ks, h, b, r) = compile_table in
      let same : msg' ≡ msg = ok-injective msg' msg (sym e ∙ made) in
      subst (λ m. length m.account_keys ≤ 256 → Resolves m.account_keys instrs m.instructions) same
        r small
