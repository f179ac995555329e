-- ===== src/Message/Sendable.antt =====
-- Which messages `Message::compile` makes for instructions of a bounded size: they can be sent, and
-- their fields are bytes.
use solana_cpp_sdk.Base.{ℕ, ◌%◌, ◌≤◌, ◌<◌, ◌≡◌, refl, arith, List, [], ◌∷◌}
use solana_cpp_sdk.Base.{◌++◌, true, some, get_elem?, length, All, All-append, IsByte, ok}
use solana_cpp_sdk.Base.{◌>>=◌, ==_iff}
use solana_cpp_sdk.Base58
use solana_cpp_sdk.Base58.Decoded.{decode-IsByte}
use solana_cpp_sdk.PublicKey.{PublicKey, IsPublicKey, equals}
use solana_cpp_sdk.PublicKey.Laws.{equals_iff}
use solana_cpp_sdk.Instruction.{Instruction}
use solana_cpp_sdk.Accounts.{AccountInfo, keys}
use solana_cpp_sdk.Accounts.Counts.{count_keys, count_keys-le-length, count_keys_first}
use solana_cpp_sdk.Accounts.Laws.{Distinct}
use solana_cpp_sdk.Message
use solana_cpp_sdk.Message.{Message, register_all, header_of}
use solana_cpp_sdk.Message.Bytes.{
  IsHeader, count_u8-IsByte, serialize_header-IsByte, serialize_keys-IsByte,
  serialize_instructions-IsByte,
}
use solana_cpp_sdk.Message.Format.{IsWire}
use solana_cpp_sdk.Message.Laws.{Resolves, compile_table, counted, signer}
use solana_cpp_sdk.Message.Sizes.{
  places, IsInstruction, length-register_all, register_all-IsPublicKey, IsPublicKey-Has32Bytes,
  Resolves-compiled, IsIndexed,
}
use solana_cpp_sdk.Message.Table.{register_all-IsTable}

header_of-IsHeader : (t : List AccountInfo) → IsHeader (header_of t)
unfolding header_of
header_of-IsHeader t = (
  count_u8-IsByte _ 0 t (omega arith),
  (count_u8-IsByte _ 0 t (omega arith), count_u8-IsByte _ 0 t (omega arith)),
)

-- A legacy message that is made of bytes and fits the wire format, with its decoded blockhash.
pub record IsSendable (msg : Message) (bh : List ℕ) : Type 0 where
  pub header : IsHeader msg.header
  pub keys_whole : All IsPublicKey msg.account_keys
  pub few_keys : length msg.account_keys < 256
  pub indexed : All IsIndexed msg.instructions
  pub fits : IsWire msg
  pub decoded : Base58.decode msg.recent_blockhash ≡ ok bh
  pub blockhash : length bh ≡ 32

-- What is written for such a message are bytes.
pub serialize-IsByte :
    (msg : Message) (bh : List ℕ)
    → IsSendable msg bh
    → (body : List ℕ) × (Message.serialize msg ≡ ok body) × All IsByte body
unfolding Message.serialize
serialize-IsByte msg bh v = (
  Message.serialize_header msg.header
      ++ (Message.serialize_keys msg.account_keys
          ++ (bh ++ Message.serialize_instructions msg.instructions)),
  rw (v.decoded, ◌>>=◌, (==_iff (length bh) 32).1 v.blockhash),
  All-append IsByte _ _ (serialize_header-IsByte msg.header v.header) (
      All-append IsByte _ _ (serialize_keys-IsByte msg.account_keys v.keys_whole) (
        All-append IsByte bh _ (decode-IsByte msg.recent_blockhash bh v.decoded)
          (serialize_instructions-IsByte msg.instructions v.indexed))),
)

pub instructions_fit : (instrs : List Instruction) → length instrs ≤ places instrs
instructions_fit [] = omega arith
instructions_fit (instr ∷ instrs) = omega (arith, instructions_fit instrs)

-- What `Message::compile` makes: a message to send, whose first key is the fee payer.
pub record IsCompiled (instrs : List Instruction) (payer : PublicKey) (bh : List ℕ) (msg : Message)
    : Type 0 where
  pub sendable : IsSendable msg bh
  pub payer_first : get_elem? msg.account_keys 0 ≡ some payer
  pub distinct : Distinct msg.account_keys
  pub resolves : Resolves msg.account_keys instrs msg.instructions
  pub signs_some : 0 < msg.header.num_required_signatures
  pub signs_few : msg.header.num_required_signatures < 256

module _ (instrs : List Instruction) (payer : PublicKey) (blockhash bh : List ℕ) where
  required :
      places instrs < 255
      → (0 < (header_of (register_all instrs payer)).num_required_signatures)
        × ((header_of (register_all instrs payer)).num_required_signatures < 256)
  required few =
      let ks = keys (register_all instrs payer) in
      let same : (header_of (register_all instrs payer)).num_required_signatures
          ≡ count_keys (signer instrs payer blockhash) ks % 256 =
        unfold header_of in counted instrs payer blockhash (λ s w. s) in
      let self : signer instrs payer blockhash payer ≡ true =
        let eq : equals payer payer ≡ true = (equals_iff payer payer).1 refl in rw eq in
      let some_ =
        count_keys_first (signer instrs payer blockhash) ks payer
          (register_all-IsTable instrs payer).1 self in
      let few_ = count_keys-le-length (signer instrs payer blockhash) ks in
      let bound = length-register_all instrs payer in rw same (omega arith, omega arith)

  pub compile-IsCompiled :
      IsPublicKey payer
      → All IsInstruction instrs
      → places instrs < 255
      → Base58.decode blockhash ≡ ok bh
      → length bh ≡ 32
      → (msg : Message) × (Message.compile instrs payer blockhash ≡ ok msg)
        × IsCompiled instrs payer bh msg
  compile-IsCompiled key each few e len =
      let (msg, made, ks, h, b, r) = compile_table instrs payer blockhash in
      let bound = length-register_all instrs payer in
      let small : length msg.account_keys < 256 = rw ks (omega arith) in
      let whole : All IsPublicKey msg.account_keys =
        rw ks (register_all-IsPublicKey instrs payer key each) in
      let resolves = r (omega arith) in
      let (n, (short, indexed)) =
        Resolves-compiled msg.account_keys instrs msg.instructions (omega arith) (omega arith) each
          resolves in
      let (distinct, first) = register_all-IsTable instrs payer in
      let (some_, few_) = required few in
      (
        msg,
        made,
        record {
          sendable = record {
            header = rw h (header_of-IsHeader (register_all instrs payer));
            keys_whole = whole;
            few_keys = small;
            indexed = indexed;
            fits = record {
              keys_fit = omega arith;
              keys_whole = IsPublicKey-Has32Bytes msg.account_keys whole;
              instructions_fit = omega (arith, n, instructions_fit instrs);
              instructions_short = short;
            };
            decoded = rw b e;
            blockhash = len;
          };
          payer_first = rw ks first;
          distinct = rw ks distinct;
          resolves = resolves;
          signs_some = rw h some_;
          signs_few = rw h few_;
        },
      )
