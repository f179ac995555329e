-- ===== src/Wire.antt =====
-- The byte writers: `writeCompactU16` of src/solana/message.cpp (src/solana/message_v0.cpp has the
-- same text), and the Borsh writers of include/solana/borsh.h. A writer is modelled by the bytes
-- that it appends to its buffer.
pub mod Laws
pub mod Spec
use solana_cpp_sdk.Base.{ℕ, zero, suc, ◌+◌, ◌*◌, ◌/◌, ◌^◌, bit_and, bit_or, List, [], ◌∷◌, ◌++◌}
use solana_cpp_sdk.Base.{ltb, if◌then◌else◌, u8, u16, u32, length}

-- `do { b = v & 0x7F; v >>= 7; if (v > 0) b |= 0x80; push b } while (v > 0)`, with the rounds left.
unfoldable pub write_compact_rounds : ℕ → ℕ → List ℕ
write_compact_rounds zero v = []
write_compact_rounds (suc rounds) v =
    let b = bit_and v 0x7f in
    let v' = v / 2 ^ 7 in
    let rest = write_compact_rounds rounds v' in if ltb 0 v' then bit_or b 0x80 ∷ rest else b ∷ []

-- A `uint16_t` is used up after three groups of seven bits.
unfoldable pub write_compact_u16 : ℕ → List ℕ
write_compact_u16 v = write_compact_rounds 3 v

unfoldable pub write_u8 : ℕ → List ℕ
write_u8 v = v ∷ []

unfoldable pub write_u32 : ℕ → List ℕ
write_u32 v = u8 v ∷ u8 (v / 2 ^ 8) ∷ u8 (v / 2 ^ 16) ∷ u8 (v / 2 ^ 24) ∷ []

-- `for (i = 0; i < 8; ++i)`, with the rounds left and `i`.
unfoldable pub write_u64_rounds : ℕ → ℕ → ℕ → List ℕ
write_u64_rounds zero i v = []
write_u64_rounds (suc rounds) i v = u8 (v / 2 ^ (8 * i)) ∷ write_u64_rounds rounds (i + 1) v

unfoldable pub write_u64 : ℕ → List ℕ
write_u64 v = write_u64_rounds 8 0 v

unfoldable pub write_bytes : List ℕ → List ℕ
write_bytes v = v

unfoldable pub write_string : List ℕ → List ℕ
write_string s = write_u32 (u32 (length s)) ++ s
