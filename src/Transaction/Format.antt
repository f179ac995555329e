-- ===== src/Transaction/Format.antt =====
-- `serialize` of both transactions against readers of the wire format: the signatures, for a V0
-- message the prefix 0x80, and the message.
use solana_cpp_sdk.Base.{ℕ, ◌%◌, ◌/◌, ◌^◌, ◌<◌, ◌≡◌, arith, ◌∙◌, List, ◌∷◌, ◌++◌, some, none}
use solana_cpp_sdk.Base.{length, u16, All, ok, ◌>>=◌ as bind, append_assoc, ◌==◌, if◌then◌else◌}
use solana_cpp_sdk.Base.{low_seven_wide, set_top}
use solana_cpp_sdk.Base58
use solana_cpp_sdk.Wire.{write_compact_u16, write_compact_rounds}
use solana_cpp_sdk.Wire.Spec.{Reader, ◌>>=◌, pure, read_u8, read_bytes, read_compact_u16, read_many}
use solana_cpp_sdk.Wire.Laws.{then_read, read_counted, read_bytes-append}
use solana_cpp_sdk.Message.Format.{WireMessage, read_message, read_message-serialize}
use solana_cpp_sdk.Message.Format as Legacy
use solana_cpp_sdk.MessageV0.Format.{WireMessageV0, read_message_v0, read_message_v0-serialize}
use solana_cpp_sdk.MessageV0.Format as Versioned
use solana_cpp_sdk.Transaction.{Transaction, TransactionV0, signature_count, serialize_signatures}
use solana_cpp_sdk.Transaction.{serialize, serialize_v0}

abbrev pub IsSignature : List ℕ → Type 0
IsSignature s = length s ≡ 64

-- The signatures, then what `r` reads.
pub read_signed : {M : Type 0} → Reader M → Reader (List (List ℕ) × M)
read_signed r = do
  n ← read_compact_u16
  signatures ← read_many n (read_bytes 64)
  m ← r
  pure (signatures, m)

-- A V0 message stands behind the byte 0x80.
pub read_versioned : Reader WireMessageV0
read_versioned = do prefix ← read_u8; if prefix == 0x80 then read_message_v0 else (λ bs. none)

-- The count is a compact-u16 as long as two bytes hold it.
pub signature_count_lem : (n : ℕ) → n < 2 ^ 14 → signature_count n ≡ write_compact_u16 (u16 n)
unfolding signature_count write_compact_u16 write_compact_rounds
signature_count_lem n h =
    let fits : n % 2 ^ 16 ≡ n = omega arith in
    rw (signature_count, fits)
      (ground (arith, low_seven_wide n, low_seven_wide (n / 128), set_top (n % 128)))

-- Behind the signatures stands whatever `body` is.
read_signed-serialize :
    {M : Type 0} (r : Reader M) (signatures : List (List ℕ)) (body rest : List ℕ) (m : M)
    → length signatures < 2 ^ 14
    → All IsSignature signatures
    → r (body ++ rest) ≡ some (m, rest)
    → read_signed r ((serialize_signatures signatures ++ body) ++ rest)
      ≡ some ((signatures, m), rest)
unfolding read_signed serialize_signatures
read_signed-serialize r signatures body rest m small p e =
    rw (signature_count_lem (length signatures) small) (
      simp append_assoc (
        read_counted (read_bytes 64) (λ s. s) IsSignature _
          (λ s rest' h. read_bytes-append s rest' 64 h) signatures (body ++ rest) (omega arith) p
        ∙ then_read r _ e))

-- A legacy transaction of fewer than 2 ^ 14 signatures of 64 bytes, whose message has counts below
-- 2 ^ 16, keys of 32 bytes and a blockhash that decodes to 32 bytes, is serialized, and a reader of
-- the wire format gets its signatures and its message back, with all bytes that follow.
pub read_signed-serialize_legacy :
    (tx : Transaction) (bh : List ℕ)
    → Legacy.IsWire tx.message
    → length bh ≡ 32
    → Base58.decode tx.message.recent_blockhash ≡ ok bh
    → length tx.signatures < 2 ^ 14
    → All IsSignature tx.signatures
    → (bytes : List ℕ) × (serialize tx ≡ ok bytes)
      × ((rest : List ℕ)
          → read_signed read_message (bytes ++ rest)
            ≡ some ((tx.signatures, Legacy.wire tx.message bh), rest))
unfolding serialize
read_signed-serialize_legacy tx bh v len e small p =
    let (body, made, reads) = read_message-serialize tx.message bh v len e in
    (
      serialize_signatures tx.signatures ++ body,
      rw (made, bind),
      λ rest. read_signed-serialize read_message tx.signatures body rest _ small p (reads rest),
    )

-- A V0 transaction of fewer than 2 ^ 14 signatures of 64 bytes, whose message has counts below
-- 2 ^ 16, keys of 32 bytes and a blockhash that decodes to 32 bytes, is serialized, and a reader
-- that takes the message from behind the byte 0x80 gets its signatures and its message back, with
-- all bytes that follow.
pub read_signed-serialize_v0 :
    (tx : TransactionV0) (bh : List ℕ)
    → Versioned.IsWire tx.message
    → length bh ≡ 32
    → Base58.decode tx.message.recent_blockhash ≡ ok bh
    → length tx.signatures < 2 ^ 14
    → All IsSignature tx.signatures
    → (bytes : List ℕ) × (serialize_v0 tx ≡ ok bytes)
      × ((rest : List ℕ)
          → read_signed read_versioned (bytes ++ rest)
            ≡ some ((tx.signatures, Versioned.wire tx.message bh), rest))
unfolding serialize_v0 read_versioned
read_signed-serialize_v0 tx bh v len e small p =
    let (body, made, reads) = read_message_v0-serialize tx.message bh v len e in
    (
      serialize_signatures tx.signatures ++ (0x80 ∷ body),
      rw (made, bind),
      λ rest.
          read_signed-serialize read_versioned tx.signatures (0x80 ∷ body) rest _ small p
            (reads rest),
    )
