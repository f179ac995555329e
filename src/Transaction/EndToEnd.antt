-- ===== src/Transaction/EndToEnd.antt =====
-- From instructions to the text that is sent: `Message::compile`, `Transaction::sign` and
-- `Transaction::toBase64`, one after the other, for a transaction that its fee payer signs.
use solana_cpp_sdk.Base.{ℕ, ◌^◌, ◌<◌, ◌≡◌, refl, arith, sym, ◌∙◌, List, [], ◌∷◌}
use solana_cpp_sdk.Base.{
  ◌++◌, true, some, get_elem?, length, All, All-append, All-get_elem?, IsByte, ok,
}
use solana_cpp_sdk.Base.{◌>>=◌, append-nil}
use mathlib.Core.Path.{subst}
use solana_cpp_sdk.Base58
use solana_cpp_sdk.Base64.{Compiler, IsWrapping, base64_encode, base64_decode}
use solana_cpp_sdk.Base64.Laws.{base64_decode-encode}
use solana_cpp_sdk.Sodium.{Sodium, IsSodium, WritesBytes}
use solana_cpp_sdk.PublicKey.{IsPublicKey}
use solana_cpp_sdk.Instruction.{Instruction}
use solana_cpp_sdk.Keypair
use solana_cpp_sdk.Keypair.{Keypair}
use solana_cpp_sdk.Message
use solana_cpp_sdk.Message.{Message, register_all, header_of}
use solana_cpp_sdk.Message.Bytes.{}
use solana_cpp_sdk.Message.Format.{wire, read_message}
use solana_cpp_sdk.Message.Laws.{Resolves}
use solana_cpp_sdk.Message.Sizes.{places, IsInstruction}
use solana_cpp_sdk.Transaction.{
  Transaction, make, sign, sign_all, serialize, to_base64, serialize_signatures, place,
  empty_signatures,
}
use solana_cpp_sdk.Transaction.Format.{read_signed, read_signed-serialize_legacy}
use solana_cpp_sdk.Transaction.Laws.{IsFromSeed, sign_verifies, length-place}
use solana_cpp_sdk.Transaction.Slots.{
  IsWhole, empty_signatures-IsWhole, length-empty_signatures, place-IsWhole, IsWhole-IsSignature,
  serialize_signatures-IsByte,
}
use solana_cpp_sdk.Message.Sendable.{IsSendable, serialize-IsByte, compile-IsCompiled}

bytes-injective : (a b : List ℕ) → ok a ≡ ok b → a ≡ b
bytes-injective a b e = cc

ok-injective : (a b : Transaction) → ok a ≡ ok b → a ≡ b
ok-injective a b e = cc

module _ (sodium : Sodium) where
  -- The text holds the signed message of the instructions: the decoder of the RPC client, compiled
  -- so that signed shifts wrap, and a reader of the wire format get the signatures and the message
  -- out of it, the message stands for the instructions, and the first signature is one of the
  -- payer's over the message's bytes.
  pub record IsSigned (instrs : List Instruction) (kp : Keypair) (bh : List ℕ) (tx : Transaction)
      (text : List ℕ) : Type 0 where
    pub bytes : List ℕ
    pub body : List ℕ
    pub signature : List ℕ
    pub decoded :
        (compiler : Compiler) → IsWrapping compiler → base64_decode compiler text ≡ ok bytes
    pub read : read_signed read_message bytes ≡ some ((tx.signatures, wire tx.message bh), [])
    pub payer_first : get_elem? tx.message.account_keys 0 ≡ some (Keypair.public_key kp)
    pub resolves : Resolves tx.message.account_keys instrs tx.message.instructions
    pub serialized : Message.serialize tx.message ≡ ok body
    pub written : serialize tx ≡ ok bytes
    pub size : length signature ≡ 64
    pub placed : get_elem? tx.signatures 0 ≡ some signature
    pub verifies : sodium.verify_detached signature body (Keypair.public_key kp).bytes ≡ true

  module _ (laws : IsSodium sodium) (writes : WritesBytes sodium)
      (ready : sodium.ready ≡ true) where
    -- Encoding whatever has whole signatures and a message to send.
    to_base64_reads :
        (tx : Transaction) (bh : List ℕ)
        → IsSendable tx.message bh
        → length tx.signatures < 2 ^ 14
        → All IsWhole tx.signatures
        → (text : List ℕ) × (all : List ℕ) × (serialize tx ≡ ok all)
          × (to_base64 tx ≡ ok text)
          × ((compiler : Compiler) → IsWrapping compiler → base64_decode compiler text ≡ ok all)
          × (read_signed read_message all ≡ some ((tx.signatures, wire tx.message bh), []))
    unfolding to_base64
    to_base64_reads tx bh v few whole =
        let (body, made, bytes) = serialize-IsByte tx.message bh v in
        let all = serialize_signatures tx.signatures ++ body in
        let written : serialize tx ≡ ok all = unfold serialize in rw (made, ◌>>=◌) in
        let all_bytes : All IsByte all =
          All-append IsByte (serialize_signatures tx.signatures) body
            (serialize_signatures-IsByte tx.signatures few whole) bytes in
        let (bs, made', reads) =
          read_signed-serialize_legacy tx bh v.fits v.blockhash v.decoded few
            (IsWhole-IsSignature tx.signatures whole) in
        let same : bs ≡ all = bytes-injective bs all (sym made' ∙ written) in
        (
          base64_encode all,
          all,
          written,
          rw (written, ◌>>=◌),
          λ compiler wraps. base64_decode-encode compiler wraps all all_bytes,
          (subst (λ t. read_signed read_message t ≡ some ((tx.signatures, wire tx.message bh), []))
              (append-nil bs ∙ same) (reads [])),
        )

    -- With libsodium initialised: for a fee payer made from a seed, and instructions whose keys
    -- have 32 bytes, whose data has fewer than 2 ^ 16 bytes, and that mention keys fewer than 255
    -- times in all, and a blockhash that decodes to 32 bytes, compile makes a message, sign signs
    -- it and toBase64 gives a text from which the RPC client's decoder, compiled so that signed
    -- shifts wrap, and a reader of the wire format get the signatures and the message back; its
    -- compiled instructions lead to the instructions, and the first signature is the payer's and
    -- verifies.
    pub to_base64-sign :
        (instrs : List Instruction) (kp : Keypair) (blockhash bh : List ℕ)
        → IsFromSeed sodium kp
        → IsPublicKey (Keypair.public_key kp)
        → All IsInstruction instrs
        → places instrs < 255
        → Base58.decode blockhash ≡ ok bh
        → length bh ≡ 32
        → (msg : Message) × (tx : Transaction) × (text : List ℕ) × (Message.compile instrs
              (Keypair.public_key kp)
              blockhash
            ≡ ok msg)
          × (sign sodium (make msg) (kp ∷ []) ≡ ok tx)
          × (to_base64 tx ≡ ok text)
          × IsSigned instrs kp bh tx text
    to_base64-sign instrs kp blockhash bh from key each few e len =
        let (msg, made, c) =
          compile-IsCompiled instrs (Keypair.public_key kp) blockhash bh key each few e len in
        let (body, serialized, _) = serialize-IsByte msg bh c.sendable in
        let n = length-empty_signatures msg.header.num_required_signatures in
        let (tx, signed, (signature, placed, verified)) =
          sign_verifies sodium laws ready (make msg) kp [] body (unfold make in serialized)
            (unfold make in c.distinct) (from, tt) 0 0 kp (unfold make in c.payer_first)
            (unfold make in omega (arith, n, c.signs_some)) refl in
        let sk = Keypair.sign sodium kp body in
        let slots =
          place msg.account_keys (empty_signatures msg.header.num_required_signatures)
            (Keypair.public_key kp) sk in
        let result : Transaction = record { message = msg; signatures = slots } in
        let signed' : sign sodium (make msg) (kp ∷ []) ≡ ok result =
          unfold sign make sign_all in rw (serialized, ◌>>=◌) in
        let same : tx ≡ result = ok-injective tx result (sym signed ∙ signed') in
        let whole : All IsWhole slots =
          place-IsWhole msg.account_keys (empty_signatures msg.header.num_required_signatures)
            (Keypair.public_key kp) sk (empty_signatures-IsWhole msg.header.num_required_signatures)
            (unfold Keypair.sign in writes.signature_bytes body kp.secret_bytes) in
        let count =
          length-place msg.account_keys (empty_signatures msg.header.num_required_signatures)
            (Keypair.public_key kp) sk in
        let at : get_elem? slots 0 ≡ some signature =
          subst (λ t. get_elem? t.signatures 0 ≡ some signature) same placed in
        let (text, bytes, written, encoded, decoded, reads) =
          to_base64_reads result bh c.sendable (omega (arith, n, count, c.signs_few)) whole in
        (
          msg,
          result,
          text,
          made,
          signed',
          encoded,
          record {
            bytes = bytes;
            body = body;
            signature = signature;
            decoded = decoded;
            read = reads;
            payer_first = c.payer_first;
            resolves = c.resolves;
            serialized = serialized;
            written = written;
            size = (All-get_elem? IsWhole slots 0 signature whole at).0;
            placed = at;
            verifies = verified;
          },
        )
