-- ===== src/Transaction/EndToEndV0.antt =====
-- From instructions to the text that is sent: `MessageV0::compile` without lookup tables,
-- `TransactionV0::sign` and `TransactionV0::toBase64`, one after the other, for a transaction that
-- its fee payer signs.
use solana_cpp_sdk.Base.{ℕ, ◌^◌, ◌<◌, ◌≡◌, refl, arith, sym, ◌∙◌, List, [], ◌∷◌, ◌++◌}
use solana_cpp_sdk.Base.{true, some, get_elem?, length, All, All-append, IsByte, ok}
use solana_cpp_sdk.Base.{◌>>=◌, append-nil}
use mathlib.Core.Path.{subst}
use solana_cpp_sdk.Base58
use solana_cpp_sdk.Base64.{Compiler, IsWrapping, base64_encode, base64_decode}
use solana_cpp_sdk.Base64.Laws.{base64_decode-encode}
use solana_cpp_sdk.Sodium.{Sodium, IsSodium, WritesBytes}
use solana_cpp_sdk.PublicKey.{PublicKey, IsPublicKey, equals}
use solana_cpp_sdk.PublicKey.Laws.{equals_iff}
use solana_cpp_sdk.Instruction.{Instruction}
use solana_cpp_sdk.Keypair
use solana_cpp_sdk.Keypair.{Keypair}
use solana_cpp_sdk.Message.Laws.{Resolves}
use solana_cpp_sdk.Message.Sizes.{places, IsInstruction}
use solana_cpp_sdk.MessageV0
use solana_cpp_sdk.MessageV0.{MessageV0}
use solana_cpp_sdk.MessageV0.Format.{wire}
use solana_cpp_sdk.MessageV0.Sendable.{IsSendable, serialize-IsByte, compile-IsCompiled}
use solana_cpp_sdk.Transaction.{
  TransactionV0, make_v0, sign_v0, sign_all, serialize_v0, to_base64_v0, serialize_signatures,
  place, empty_signatures,
}
use solana_cpp_sdk.Transaction.Format.{read_signed, read_versioned, read_signed-serialize_v0}
use solana_cpp_sdk.Transaction.Laws.{IsFromSeed, own_signature, length-place}
use solana_cpp_sdk.Transaction.Slots.{
  IsWhole, empty_signatures-IsWhole, length-empty_signatures, place-IsWhole, IsWhole-IsSignature,
  serialize_signatures-IsByte,
}

bytes-injective : (a b : List ℕ) → ok a ≡ ok b → a ≡ b
bytes-injective a b e = cc

-- The signature of the first key goes to the first slot.
place_first :
    (ks : List PublicKey) (ss : List (List ℕ)) (pk : PublicKey) (s : List ℕ)
    → get_elem? ks 0 ≡ some pk
    → 0 < length ss
    → get_elem? (place ks ss pk s) 0 ≡ some s
unfolding place
place_first [] ss pk s h n = cc
place_first (k ∷ ks) [] pk s h n = absurd (omega arith)
place_first (k ∷ ks) (x ∷ ss) pk s h n =
    let same : k ≡ pk = cc in let hit : equals k pk ≡ true = (equals_iff k pk).1 same in rw hit refl

module _ (sodium : Sodium) where
  -- The text holds the signed message of the instructions: the decoder of the RPC client, compiled
  -- so that signed shifts wrap, and a reader of the wire format get the signatures and the message
  -- out of it, the message stands for the instructions, and the first signature is one of the
  -- payer's over the message's bytes behind the byte 0x80.
  pub record IsSigned (instrs : List Instruction) (kp : Keypair) (bh : List ℕ) (tx : TransactionV0)
      (text : List ℕ) : Type 0 where
    pub bytes : List ℕ
    pub body : List ℕ
    pub signature : List ℕ
    pub decoded :
        (compiler : Compiler) → IsWrapping compiler → base64_decode compiler text ≡ ok bytes
    pub read : read_signed read_versioned bytes ≡ some ((tx.signatures, wire tx.message bh), [])
    pub payer_first : get_elem? tx.message.static_account_keys 0 ≡ some (Keypair.public_key kp)
    pub resolves : Resolves tx.message.static_account_keys instrs tx.message.instructions
    pub serialized : MessageV0.serialize tx.message ≡ ok body
    pub written : serialize_v0 tx ≡ ok bytes
    pub size : length signature ≡ 64
    pub placed : get_elem? tx.signatures 0 ≡ some signature
    pub verifies : sodium.verify_detached signature body (Keypair.public_key kp).bytes ≡ true

  module _ (laws : IsSodium sodium) (writes : WritesBytes sodium)
      (ready : sodium.ready ≡ true) where
    -- Encoding whatever has whole signatures and a message to send.
    to_base64_v0_reads :
        (tx : TransactionV0) (bh : List ℕ)
        → IsSendable tx.message bh
        → length tx.signatures < 2 ^ 14
        → All IsWhole tx.signatures
        → (text : List ℕ) × (all : List ℕ) × (serialize_v0 tx ≡ ok all)
          × (to_base64_v0 tx ≡ ok text)
          × ((compiler : Compiler) → IsWrapping compiler → base64_decode compiler text ≡ ok all)
          × (read_signed read_versioned all ≡ some ((tx.signatures, wire tx.message bh), []))
    unfolding to_base64_v0
    to_base64_v0_reads tx bh v few whole =
        let (body, made, bytes) = serialize-IsByte tx.message bh v in
        let all = serialize_signatures tx.signatures ++ (0x80 ∷ body) in
        let written : serialize_v0 tx ≡ ok all = unfold serialize_v0 in rw (made, ◌>>=◌) in
        let all_bytes : All IsByte all =
          All-append IsByte (serialize_signatures tx.signatures) (0x80 ∷ body)
            (serialize_signatures-IsByte tx.signatures few whole) (omega arith, bytes) in
        let (bs, made', reads) =
          read_signed-serialize_v0 tx bh v.fits v.blockhash v.decoded few
            (IsWhole-IsSignature tx.signatures whole) in
        let same : bs ≡ all = bytes-injective bs all (sym made' ∙ written) in
        (
          base64_encode all,
          all,
          written,
          rw (written, ◌>>=◌),
          λ compiler wraps. base64_decode-encode compiler wraps all all_bytes,
          (subst
              (λ t. read_signed read_versioned t ≡ some ((tx.signatures, wire tx.message bh), []))
              (append-nil bs ∙ same) (reads [])),
        )

    -- With libsodium initialised: for a fee payer made from a seed, and instructions whose keys
    -- have 32 bytes, whose data has fewer than 2 ^ 16 bytes, and that mention keys fewer than 255
    -- times in all, and a blockhash that decodes to 32 bytes, the V0 compile without lookup tables
    -- makes a message, sign signs it and toBase64 gives a text from which the RPC client's decoder,
    -- compiled so that signed shifts wrap, and a reader of the wire format get the signatures and
    -- the message back; its compiled instructions lead to the instructions, and the first signature
    -- is the payer's and verifies, over the message without its byte 0x80.
    pub to_base64_v0-sign_v0 :
        (instrs : List Instruction) (kp : Keypair) (blockhash bh : List ℕ)
        → IsFromSeed sodium kp
        → IsPublicKey (Keypair.public_key kp)
        → All IsInstruction instrs
        → places instrs < 255
        → Base58.decode blockhash ≡ ok bh
        → length bh ≡ 32
        → (msg : MessageV0) × (tx : TransactionV0) × (text : List ℕ) × (MessageV0.compile instrs
              (Keypair.public_key kp)
              blockhash
              []
            ≡ ok msg)
          × (sign_v0 sodium (make_v0 msg) (kp ∷ []) ≡ ok tx)
          × (to_base64_v0 tx ≡ ok text)
          × IsSigned instrs kp bh tx text
    to_base64_v0-sign_v0 instrs kp blockhash bh from key each few e len =
        let (msg, made, c) =
          compile-IsCompiled instrs (Keypair.public_key kp) blockhash bh key each few e len in
        let (body, serialized, _) = serialize-IsByte msg bh c.sendable in
        let n = length-empty_signatures msg.header.num_required_signatures in
        let sk = Keypair.sign sodium kp body in
        let ks = msg.static_account_keys in
        let empty = empty_signatures msg.header.num_required_signatures in
        let slots = place ks empty (Keypair.public_key kp) sk in
        let result : TransactionV0 = record { message = msg; signatures = slots } in
        let signed : sign_v0 sodium (make_v0 msg) (kp ∷ []) ≡ ok result =
          unfold sign_v0 make_v0 sign_all in rw (serialized, ◌>>=◌) in
        let written_sk : IsWhole sk =
          unfold Keypair.sign in writes.signature_bytes body kp.secret_bytes in
        let whole : All IsWhole slots =
          place-IsWhole ks empty (Keypair.public_key kp) sk
            (empty_signatures-IsWhole msg.header.num_required_signatures) written_sk in
        let count = length-place ks empty (Keypair.public_key kp) sk in
        let (text, bytes, written, encoded, decoded, reads) =
          to_base64_v0_reads result bh c.sendable (omega (arith, n, count, c.signs_few)) whole in
        (
          msg,
          result,
          text,
          made,
          signed,
          encoded,
          record {
            bytes = bytes;
            body = body;
            signature = sk;
            decoded = decoded;
            read = reads;
            payer_first = c.payer_first;
            resolves = c.resolves;
            serialized = serialized;
            written = written;
            size = written_sk.0;
            placed =
                place_first ks empty (Keypair.public_key kp) sk c.payer_first
                  (omega (arith, n, c.signs_some));
            verifies = own_signature sodium laws ready kp body from;
          },
        )
