-- ===== src/MessageV0/Sendable.antt =====
-- Which V0 messages `compile` makes, without lookup tables, for instructions of a bounded size: they
-- can be sent, and their fields are bytes.
use solana_cpp_sdk.Base.{ℕ, ◌+◌, ◌<◌, ◌≡◌, refl, arith, ◌∙◌, List, [], ◌++◌}
use solana_cpp_sdk.Base.{true, some, get_elem?, length, All, All-append, IsByte, ok, ◌>>=◌}
use solana_cpp_sdk.Base.{append-nil, ==_iff}
use mathlib.Core.Path.{subst}
use solana_cpp_sdk.Base58
use solana_cpp_sdk.Base58.Decoded.{decode-IsByte}
use solana_cpp_sdk.PublicKey.{PublicKey, IsPublicKey, equals}
use solana_cpp_sdk.PublicKey.Laws.{equals_iff}
use solana_cpp_sdk.Instruction.{Instruction}
use solana_cpp_sdk.Accounts.{AccountInfo}
use solana_cpp_sdk.Lookups.{TableBucket, first_pass}
use solana_cpp_sdk.Message.Bytes.{
  IsHeader, count_u8-IsByte, serialize_header-IsByte, serialize_keys-IsByte,
  serialize_instructions-IsByte, compact_u16-IsByte,
}
use solana_cpp_sdk.Message.{serialize_header, serialize_keys, serialize_instructions}
use solana_cpp_sdk.Message.Laws.{Resolves}
use solana_cpp_sdk.Message.Sizes.{
  places, IsInstruction, IsPublicKey-Has32Bytes, Resolves-compiled, IsIndexed,
}
use solana_cpp_sdk.Message.Sendable.{instructions_fit}
use solana_cpp_sdk.MessageV0
use solana_cpp_sdk.MessageV0.{MessageV0, header_of, sort_accounts, lookup_keys, lookup_section}
use solana_cpp_sdk.MessageV0.{serialize_lookups}
use solana_cpp_sdk.MessageV0.Bounded.{first_pass-Bounded, sort_accounts-Bounded}
use solana_cpp_sdk.MessageV0.Format.{IsWire}
use solana_cpp_sdk.MessageV0.Laws.{compiled-Parts, compile_payer, compile_reads}
use solana_cpp_sdk.MessageV0.Resolve.{compile-Resolves_v0}
use solana_cpp_sdk.MessageV0.Total.{compile_returns}

header_of-IsHeader : (t : List AccountInfo) → IsHeader (header_of t)
unfolding header_of
header_of-IsHeader t = (
  count_u8-IsByte _ 0 t (omega arith),
  (count_u8-IsByte _ 0 t (omega arith), count_u8-IsByte _ 0 t (omega arith)),
)

-- A V0 message without lookups that is made of bytes and fits the wire format, with its decoded
-- blockhash.
pub record IsSendable (msg : MessageV0) (bh : List ℕ) : Type 0 where
  pub header : IsHeader msg.header
  pub keys_whole : All IsPublicKey msg.static_account_keys
  pub few_keys : length msg.static_account_keys < 256
  pub indexed : All IsIndexed msg.instructions
  pub no_lookups : msg.address_table_lookups ≡ []
  pub fits : IsWire msg
  pub decoded : Base58.decode msg.recent_blockhash ≡ ok bh
  pub blockhash : length bh ≡ 32

no_lookups-IsByte : All IsByte (serialize_lookups [])
unfolding serialize_lookups
no_lookups-IsByte = All-append IsByte _ [] (compact_u16-IsByte 0) tt

-- What is written for such a message are bytes.
pub serialize-IsByte :
    (msg : MessageV0) (bh : List ℕ)
    → IsSendable msg bh
    → (body : List ℕ) × (MessageV0.serialize msg ≡ ok body) × All IsByte body
unfolding MessageV0.serialize
serialize-IsByte msg bh v = (
  serialize_header msg.header
      ++ (serialize_keys msg.static_account_keys
          ++ (bh
              ++ (serialize_instructions msg.instructions
                  ++ serialize_lookups msg.address_table_lookups))),
  rw (v.decoded, ◌>>=◌, (==_iff (length bh) 32).1 v.blockhash),
  All-append IsByte _ _ (serialize_header-IsByte msg.header v.header) (
      All-append IsByte _ _ (serialize_keys-IsByte msg.static_account_keys v.keys_whole) (
        All-append IsByte bh _ (decode-IsByte msg.recent_blockhash bh v.decoded) (
          All-append IsByte _ _ (serialize_instructions-IsByte msg.instructions v.indexed)
            (rw (v.no_lookups) no_lookups-IsByte)))),
)

-- What `compile` makes without lookup tables: a message to send, whose first key is the fee payer.
pub record IsCompiled (instrs : List Instruction) (payer : PublicKey) (bh : List ℕ)
    (msg : MessageV0) : Type 0 where
  pub sendable : IsSendable msg bh
  pub payer_first : get_elem? msg.static_account_keys 0 ≡ some payer
  pub resolves : Resolves msg.static_account_keys instrs msg.instructions
  pub signs_some : 0 < msg.header.num_required_signatures
  pub signs_few : msg.header.num_required_signatures < 256

module _ (instrs : List Instruction) (payer : PublicKey) (blockhash bh : List ℕ) where
  no_table_keys :
      (side : TableBucket → List ℕ)
      → lookup_keys side [] (first_pass [] instrs payer).table_buckets ≡ ok []
  unfolding lookup_keys
  no_table_keys side = refl

  pub compile-IsCompiled :
      IsPublicKey payer
      → All IsInstruction instrs
      → places instrs < 255
      → Base58.decode blockhash ≡ ok bh
      → length bh ≡ 32
      → (msg : MessageV0) × (MessageV0.compile instrs payer blockhash [] ≡ ok msg)
        × IsCompiled instrs payer bh msg
  compile-IsCompiled key each few e len =
      let (msg, made) = compile_returns [] instrs payer blockhash tt in
      let (ks, h, b) = compiled-Parts instrs payer blockhash [] msg made in
      let table = (first_pass [] instrs payer).static_accounts in
      let bounded =
        sort_accounts-Bounded (1 + places instrs) table
          (first_pass-Bounded [] instrs payer key each) in
      let small : length msg.static_account_keys < 256 = rw ks (omega (arith, bounded.0)) in
      let whole : All IsPublicKey msg.static_account_keys = rw ks (bounded.1) in
      let same : msg.static_account_keys ++ ([] ++ []) ≡ msg.static_account_keys =
        append-nil msg.static_account_keys in
      let (resolved, section) =
        compile-Resolves_v0 instrs payer blockhash [] msg [] [] made
          (no_table_keys (λ b. b.writable_idx)) (no_table_keys (λ b. b.readonly_idx))
          (rw same (omega arith)) in
      let resolves : Resolves msg.static_account_keys instrs msg.instructions =
        subst (λ t. Resolves t instrs msg.instructions) same resolved in
      let (n, (short, indexed)) =
        Resolves-compiled msg.static_account_keys instrs msg.instructions (omega arith)
          (omega arith) each resolves in
      let none_ : msg.address_table_lookups ≡ [] = section ∙ (unfold lookup_section in refl) in
      let first = compile_payer instrs payer blockhash [] msg made in
      let (reads, _) = compile_reads instrs payer blockhash [] msg 0 payer made small first in
      let self : equals payer payer ≡ true = (equals_iff payer payer).1 refl in
      let header : IsHeader msg.header = rw h (header_of-IsHeader (sort_accounts table)) in
      (
        msg,
        made,
        record {
          sendable = record {
            header = header;
            keys_whole = whole;
            few_keys = small;
            indexed = indexed;
            no_lookups = none_;
            fits = record {
              keys_fit = omega arith;
              keys_whole = IsPublicKey-Has32Bytes msg.static_account_keys whole;
              instructions_fit = omega (arith, n, instructions_fit instrs);
              instructions_short = short;
              lookups_fit = rw none_ (omega arith);
              lookups_whole = rw none_ tt;
            };
            decoded = rw b e;
            blockhash = len;
          };
          payer_first = first;
          resolves = resolves;
          signs_some = ground (arith, reads, self);
          signs_few = header.0;
        },
      )
