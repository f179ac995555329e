-- ===== src/Wire/Spec.antt =====
-- Readers of the wire format, written from the format and not from the code: what a validator
-- does with the bytes. They are the specification of the writers.
use solana_cpp_sdk.Base.{ℕ, zero, suc, ◌+◌, ◌-◌, ◌*◌, List, [], ◌∷◌, Option, none, some, leb, ltb}
use solana_cpp_sdk.Base.{if◌then◌else◌, length, take, drop}

abbrev pub Reader : Type 0 → Type 0
Reader A = List ℕ → Option (A × List ℕ)

infixl 5 ◌>>=◌
abbrev pub ◌>>=◌ : {A B : Type 0} → Reader A → (A → Reader B) → Reader B
◌>>=◌ m f bs = elim (m bs) [ none ↦ none | some (a, rest) ↦ f a rest ]

abbrev pub pure : {A : Type 0} → A → Reader A
pure a bs = some (a, bs)

abbrev pub read_u8 : Reader ℕ
read_u8 [] = none
read_u8 (b ∷ bs) = some (b, bs)

abbrev pub read_bytes : ℕ → Reader (List ℕ)
read_bytes n bs = if leb n (length bs) then some (take n bs, drop n bs) else none

-- A compact-u16 has at most three groups of seven bits, the lowest first; a set top bit says that
-- another group follows.
unfoldable pub add_group : ℕ → Option (ℕ × List ℕ) → Option (ℕ × List ℕ)
add_group b none = none
add_group b (some (v, rest)) = some (b - 128 + 128 * v, rest)

unfoldable pub read_groups : ℕ → Reader ℕ
read_groups zero bs = none
read_groups (suc n) [] = none
read_groups (suc n) (b ∷ bs) =
    let more = add_group b (read_groups n bs) in if ltb b 128 then some (b, bs) else more

unfoldable pub read_compact_u16 : Reader ℕ
read_compact_u16 = read_groups 3

-- A little-endian number.
abbrev pub le_value : List ℕ → ℕ
le_value [] = 0
le_value (b ∷ bs) = b + 256 * le_value bs

-- `n` values, one after the other.
unfoldable pub read_many : {A : Type 0} → ℕ → Reader A → Reader (List A)
read_many zero r = pure []
read_many (suc n) r = do a ← r; as' ← read_many n r; pure (a ∷ as')
