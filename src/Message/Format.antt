-- ===== src/Message/Format.antt =====
-- `Message::serialize` against a reader of the legacy wire format.
use solana_cpp_sdk.Base.{ℕ, ◌^◌, ◌<◌, ◌≡◌, ◌∙◌, List, ◌++◌}
use solana_cpp_sdk.Base.{some, length, concat_map, u16, All, ok, ◌>>=◌ as bind, append_assoc}
use solana_cpp_sdk.Base.{==_iff}
use solana_cpp_sdk.Base58
use solana_cpp_sdk.Wire.{write_compact_u16}
use solana_cpp_sdk.Wire.Spec.{Reader, ◌>>=◌, pure, read_u8, read_bytes, read_compact_u16, read_many}
use solana_cpp_sdk.Wire.Laws.{then_read, read_counted, read_counted_bytes, read_bytes-append}
use solana_cpp_sdk.PublicKey.{PublicKey, to_bytes}
use solana_cpp_sdk.Message.{
  Message, MessageHeader, CompiledInstruction, serialize, serialize_header,
}
use solana_cpp_sdk.Message.{serialize_keys, serialize_instruction, serialize_instructions}

unfoldable pub read_header : Reader MessageHeader
read_header = do
  a ← read_u8
  b ← read_u8
  c ← read_u8
  pure (record {
    num_required_signatures = a;
    num_readonly_signed_accounts = b;
    num_readonly_unsigned_accounts = c;
  })

pub read_key : Reader PublicKey
read_key = do bs ← read_bytes 32; pure (record { bytes = bs })

pub read_instruction : Reader CompiledInstruction
read_instruction = do
  p ← read_u8
  n ← read_compact_u16
  is ← read_bytes n
  m ← read_compact_u16
  d ← read_bytes m
  pure (record { program_id_index = p; account_indices = is; payload = d })

-- What a validator reads: the blockhash is 32 raw bytes.
pub record WireMessage : Type 0 where
  pub header : MessageHeader
  pub account_keys : List PublicKey
  pub blockhash : List ℕ
  pub instructions : List CompiledInstruction

unfoldable pub read_message : Reader WireMessage
read_message = do
  h ← read_header
  n ← read_compact_u16
  ks ← read_many n read_key
  bh ← read_bytes 32
  m ← read_compact_u16
  cis ← read_many m read_instruction
  pure (record { header = h; account_keys = ks; blockhash = bh; instructions = cis })

abbrev pub IsShort : CompiledInstruction → Type 0
IsShort ci = (length ci.account_indices < 2 ^ 16) × (length ci.payload < 2 ^ 16)

abbrev pub Has32Bytes : PublicKey → Type 0
Has32Bytes k = length k.bytes ≡ 32

-- All counts fit a compact-u16, and each key has its 32 bytes.
pub record IsWire (msg : Message) : Type 0 where
  pub keys_fit : length msg.account_keys < 2 ^ 16
  pub keys_whole : All Has32Bytes msg.account_keys
  pub instructions_fit : length msg.instructions < 2 ^ 16
  pub instructions_short : All IsShort msg.instructions

pub read_key-to_bytes :
    (k : PublicKey) (rest : List ℕ) → Has32Bytes k → read_key (to_bytes k ++ rest) ≡ some (k, rest)
unfolding read_key to_bytes
read_key-to_bytes k rest h = then_read (read_bytes 32) _ (read_bytes-append k.bytes rest 32 h)

pub read_instruction-serialize :
    (ci : CompiledInstruction) (rest : List ℕ)
    → IsShort ci
    → read_instruction (serialize_instruction ci ++ rest) ≡ some (ci, rest)
unfolding read_instruction serialize_instruction
read_instruction-serialize ci rest h = simp append_assoc (
    read_counted_bytes _ ci.account_indices
      (write_compact_u16 (u16 (length ci.payload)) ++ (ci.payload ++ rest)) h.0
    ∙ read_counted_bytes _ ci.payload rest h.1)

-- What is read back: the message with its blockhash decoded.
abbrev pub wire : Message → List ℕ → WireMessage
wire msg bh = record {
  header = msg.header;
  account_keys = msg.account_keys;
  blockhash = bh;
  instructions = msg.instructions;
}

module _ (msg : Message) (bh : List ℕ) (v : IsWire msg) (len : length bh ≡ 32) where
  -- The bytes of the message, with the bytes that follow.
  read_message-bytes :
      (rest : List ℕ)
      → read_message (
          (serialize_header msg.header
            ++ (serialize_keys msg.account_keys ++ (bh ++ serialize_instructions msg.instructions)))
          ++ rest)
        ≡ some (wire msg bh, rest)
  unfolding read_message read_header serialize_header serialize_keys serialize_instructions
  read_message-bytes rest = simp append_assoc (
      read_counted read_key to_bytes Has32Bytes _ read_key-to_bytes msg.account_keys
        (bh
          ++ (write_compact_u16 (u16 (length msg.instructions))
              ++ (concat_map serialize_instruction msg.instructions ++ rest)))
        v.keys_fit v.keys_whole
      ∙ then_read (read_bytes 32) _ (
          read_bytes-append bh
            (write_compact_u16 (u16 (length msg.instructions))
              ++ (concat_map serialize_instruction msg.instructions ++ rest))
            32 len)
      ∙ read_counted read_instruction serialize_instruction IsShort _ read_instruction-serialize
          msg.instructions rest v.instructions_fit v.instructions_short)

  -- A legacy message whose counts are below 2 ^ 16, whose keys have 32 bytes and whose blockhash
  -- decodes to 32 bytes is serialized, and a reader of the wire format gets its header, keys,
  -- blockhash and instructions back, with all bytes that follow.
  pub read_message-serialize :
      Base58.decode msg.recent_blockhash ≡ ok bh
      → (bytes : List ℕ) × (serialize msg ≡ ok bytes)
        × ((rest : List ℕ) → read_message (bytes ++ rest) ≡ some (wire msg bh, rest))
  unfolding serialize
  read_message-serialize e = (
    serialize_header msg.header
        ++ (serialize_keys msg.account_keys ++ (bh ++ serialize_instructions msg.instructions)),
    rw (e, bind, (==_iff (length bh) 32).1 len),
    read_message-bytes,
  )
