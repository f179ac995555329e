-- ===== src/MessageV0/Format.antt =====
-- `MessageV0::serialize` against a reader of the V0 wire format.
use solana_cpp_sdk.Base.{ℕ, ◌^◌, ◌<◌, ◌≡◌, ◌∙◌, List, ◌++◌, some, length, concat_map, u16}
use solana_cpp_sdk.Base.{All, ok, ◌>>=◌ as bind, append_assoc, ==_iff}
use solana_cpp_sdk.Base58
use solana_cpp_sdk.Wire.{write_compact_u16}
use solana_cpp_sdk.Wire.Spec.{Reader, ◌>>=◌, pure, read_bytes, read_compact_u16, read_many}
use solana_cpp_sdk.Wire.Laws.{then_read, read_counted, read_counted_bytes, read_bytes-append}
use solana_cpp_sdk.PublicKey.{PublicKey, to_bytes}
use solana_cpp_sdk.Message.{MessageHeader, CompiledInstruction, serialize_header, serialize_keys}
use solana_cpp_sdk.Message.{serialize_instruction, serialize_instructions}
use solana_cpp_sdk.Message.Format.{read_header, read_key, read_instruction, IsShort, Has32Bytes}
use solana_cpp_sdk.Message.Format.{read_key-to_bytes, read_instruction-serialize}
use solana_cpp_sdk.MessageV0.{MessageV0, MessageAddressTableLookup, serialize, serialize_lookup}
use solana_cpp_sdk.MessageV0.{serialize_lookups}

unfoldable pub read_lookup : Reader MessageAddressTableLookup
read_lookup = do
  k ← read_key
  n ← read_compact_u16
  w ← read_bytes n
  m ← read_compact_u16
  r ← read_bytes m
  pure (record { account_key = k; writable_indexes = w; readonly_indexes = r })

pub record WireMessageV0 : Type 0 where
  pub header : MessageHeader
  pub static_account_keys : List PublicKey
  pub blockhash : List ℕ
  pub instructions : List CompiledInstruction
  pub address_table_lookups : List MessageAddressTableLookup

unfoldable pub read_message_v0 : Reader WireMessageV0
read_message_v0 = do
  h ← read_header
  n ← read_compact_u16
  ks ← read_many n read_key
  bh ← read_bytes 32
  m ← read_compact_u16
  cis ← read_many m read_instruction
  l ← read_compact_u16
  alts ← read_many l read_lookup
  pure (record {
    header = h;
    static_account_keys = ks;
    blockhash = bh;
    instructions = cis;
    address_table_lookups = alts;
  })

abbrev pub IsLookup : MessageAddressTableLookup → Type 0
IsLookup alt =
    (length alt.account_key.bytes ≡ 32)
    × ((length alt.writable_indexes < 2 ^ 16) × (length alt.readonly_indexes < 2 ^ 16))

-- All counts fit a compact-u16, and each key has its 32 bytes.
pub record IsWire (msg : MessageV0) : Type 0 where
  pub keys_fit : length msg.static_account_keys < 2 ^ 16
  pub keys_whole : All Has32Bytes msg.static_account_keys
  pub instructions_fit : length msg.instructions < 2 ^ 16
  pub instructions_short : All IsShort msg.instructions
  pub lookups_fit : length msg.address_table_lookups < 2 ^ 16
  pub lookups_whole : All IsLookup msg.address_table_lookups

read_lookup-serialize :
    (alt : MessageAddressTableLookup) (rest : List ℕ)
    → IsLookup alt
    → read_lookup (serialize_lookup alt ++ rest) ≡ some (alt, rest)
unfolding read_lookup serialize_lookup
read_lookup-serialize alt rest h = simp append_assoc (
    then_read read_key _ (read_key-to_bytes alt.account_key _ h.0)
    ∙ read_counted_bytes _ alt.writable_indexes
        (write_compact_u16 (u16 (length alt.readonly_indexes)) ++ (alt.readonly_indexes ++ rest))
        h.1.0
    ∙ read_counted_bytes _ alt.readonly_indexes rest h.1.1)

-- What is read back: the message with its blockhash decoded.
abbrev pub wire : MessageV0 → List ℕ → WireMessageV0
wire msg bh = record {
  header = msg.header;
  static_account_keys = msg.static_account_keys;
  blockhash = bh;
  instructions = msg.instructions;
  address_table_lookups = msg.address_table_lookups;
}

module _ (msg : MessageV0) (bh : List ℕ) (v : IsWire msg) (len : length bh ≡ 32) where
  abbrev lookup_bytes : List ℕ → List ℕ
  lookup_bytes rest =
      write_compact_u16 (u16 (length msg.address_table_lookups))
      ++ (concat_map serialize_lookup msg.address_table_lookups ++ rest)

  abbrev instruction_bytes : List ℕ → List ℕ
  instruction_bytes rest =
      write_compact_u16 (u16 (length msg.instructions))
      ++ (concat_map serialize_instruction msg.instructions ++ lookup_bytes rest)

  read_message_v0-bytes :
      (rest : List ℕ)
      → read_message_v0 (
          (serialize_header msg.header
            ++ (serialize_keys msg.static_account_keys
                ++ (bh
                    ++ (serialize_instructions msg.instructions
                        ++ serialize_lookups msg.address_table_lookups))))
          ++ rest)
        ≡ some (wire msg bh, rest)
  unfolding read_message_v0 read_header serialize_header serialize_keys serialize_instructions
      serialize_lookups
  read_message_v0-bytes rest = simp append_assoc (
      read_counted read_key to_bytes Has32Bytes _ read_key-to_bytes msg.static_account_keys
        (bh ++ instruction_bytes rest) v.keys_fit v.keys_whole
      ∙ then_read (read_bytes 32) _ (read_bytes-append bh (instruction_bytes rest) 32 len)
      ∙ read_counted read_instruction serialize_instruction IsShort _ read_instruction-serialize
          msg.instructions (lookup_bytes rest) v.instructions_fit v.instructions_short
      ∙ read_counted read_lookup serialize_lookup IsLookup _ read_lookup-serialize
          msg.address_table_lookups rest v.lookups_fit v.lookups_whole)

  -- A V0 message whose counts are below 2 ^ 16, whose keys have 32 bytes and whose blockhash decodes
  -- to 32 bytes is serialized, and a reader of the wire format gets its header, static keys,
  -- blockhash, instructions and table lookups back, with all bytes that follow.
  pub read_message_v0-serialize :
      Base58.decode msg.recent_blockhash ≡ ok bh
      → (bytes : List ℕ) × (serialize msg ≡ ok bytes)
        × ((rest : List ℕ) → read_message_v0 (bytes ++ rest) ≡ some (wire msg bh, rest))
  unfolding serialize
  read_message_v0-serialize e = (
    serialize_header msg.header
        ++ (serialize_keys msg.static_account_keys
            ++ (bh
                ++ (serialize_instructions msg.instructions
                    ++ serialize_lookups msg.address_table_lookups))),
    rw (e, bind, (==_iff (length bh) 32).1 len),
    read_message_v0-bytes,
  )
