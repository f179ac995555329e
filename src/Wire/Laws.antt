-- ===== src/Wire/Laws.antt =====
-- What the writers append, read back.
use solana_cpp_sdk.Base.{ℕ, zero, suc, ◌/◌, ◌%◌, ◌^◌, ◌<◌, ◌≡◌, refl, arith}
use solana_cpp_sdk.Base.{List, [], ◌∷◌, ◌++◌, some, length}
use solana_cpp_sdk.Base.{IsByte, All, low_seven_wide, set_top, take-append, drop-append}
use solana_cpp_sdk.Base.{length-append, le→leb, ◌∙◌, if◌then◌else◌, ltb}
use solana_cpp_sdk.Wire.{write_compact_rounds, write_compact_u16, write_u32, write_u64}
use solana_cpp_sdk.Base.{concat_map, append_assoc, u16}
use solana_cpp_sdk.Wire.{write_u64_rounds}
use solana_cpp_sdk.Wire.Spec.{Reader, read_groups, add_group, read_compact_u16, read_bytes}
use solana_cpp_sdk.Wire.Spec.{le_value, read_many, ◌>>=◌}

read_groups-write_compact_rounds :
    (k v : ℕ) (rest : List ℕ)
    → v < 128 ^ suc k
    → v < 2 ^ 16
    → read_groups (suc k) (write_compact_rounds (suc k) v ++ rest) ≡ some (v, rest)
unfolding read_groups write_compact_rounds add_group
read_groups-write_compact_rounds zero v rest h w = ground (arith, low_seven_wide v)
read_groups-write_compact_rounds (suc k) v rest h w = ground (
  arith,
  low_seven_wide v,
  set_top (v % 128),
  read_groups-write_compact_rounds k (v / 128) rest (omega arith),
)

-- Reading back what writeCompactU16 appended for a number below 2 ^ 16 gives the number, and the
-- bytes that follow.
pub read-write_compact_u16 :
    (v : ℕ) (rest : List ℕ)
    → v < 2 ^ 16
    → read_compact_u16 (write_compact_u16 v ++ rest) ≡ some (v, rest)
unfolding read_compact_u16 write_compact_u16
read-write_compact_u16 v rest h = read_groups-write_compact_rounds 2 v rest (omega arith) h

write_compact_rounds-IsByte : (k v : ℕ) → v < 2 ^ 16 → All IsByte (write_compact_rounds k v)
unfolding write_compact_rounds
write_compact_rounds-IsByte zero v h = tt
write_compact_rounds-IsByte (suc k) v h =
    ground (arith, low_seven_wide v, set_top (v % 128), write_compact_rounds-IsByte k (v / 128))

-- The number of bytes is the least that holds the number.
pub length-write_compact_u16 :
    (v : ℕ)
    → v < 2 ^ 16
    → All IsByte (write_compact_u16 v)
      × (length (write_compact_u16 v) ≡ (if ltb v 128 then 1 else if ltb v (2 ^ 14) then 2 else 3))
unfolding write_compact_u16
length-write_compact_u16 v h =
    (write_compact_rounds-IsByte 3 v h, unfold write_compact_rounds in ground arith)

-- The little-endian writers keep the value of the machine word.
pub le_value-write_u32 : (v : ℕ) → v < 2 ^ 32 → le_value (write_u32 v) ≡ v
unfolding write_u32
le_value-write_u32 v h = omega arith

pub le_value-write_u64 : (v : ℕ) → v < 2 ^ 64 → le_value (write_u64 v) ≡ v
unfolding write_u64 write_u64_rounds
le_value-write_u64 v h = omega arith

pub length-write_u64 : (v : ℕ) → length (write_u64 v) ≡ 8
unfolding write_u64 write_u64_rounds
length-write_u64 v = refl

pub read_bytes-append :
    (xs rest : List ℕ) (n : ℕ) → length xs ≡ n → read_bytes n (xs ++ rest) ≡ some (xs, rest)
read_bytes-append xs rest n h = rw (
  le→leb n (length (xs ++ rest)) (omega (arith, length-append xs rest)),
  take-append xs rest n h,
  drop-append xs rest n h,
)

-- Values that one reader reads back one by one are read back in a row.
pub read_many-append :
    {A : Type 0} (r : Reader A) (w : A → List ℕ) (P : A → Type 0)
    → ((a : A) (rest : List ℕ) → P a → r (w a ++ rest) ≡ some (a, rest))
    → (as' : List A) (rest : List ℕ) → All P as'
    → read_many (length as') r (concat_map w as' ++ rest) ≡ some (as', rest)
unfolding read_many
read_many-append r w P h [] rest p = refl
read_many-append r w P h (a ∷ as') rest p = rw (
  append_assoc (w a) (concat_map w as') rest,
  ◌>>=◌,
  h a (concat_map w as' ++ rest) p.0,
  read_many-append r w P h as' rest p.1,
)

-- One step of a reader.
pub then_read :
    {A B : Type 0} (r : Reader A) (f : A → Reader B) {bs rest : List ℕ} {a : A}
    → r bs ≡ some (a, rest)
    → (r >>= f) bs ≡ f a rest
then_read r f e = rw (◌>>=◌, e)

-- A counted sequence: the number of entries as a compact-u16, then the entries.
pub read_counted :
    {A B : Type 0} (r : Reader A) (w : A → List ℕ) (P : A → Type 0) (f : List A → Reader B)
    → ((a : A) (rest : List ℕ) → P a → r (w a ++ rest) ≡ some (a, rest))
    → (as' : List A) (rest : List ℕ) → length as' < 2 ^ 16
    → All P as'
    → (read_compact_u16 >>= λ n. read_many n r >>= f)
        (write_compact_u16 (u16 (length as')) ++ (concat_map w as' ++ rest))
      ≡ f as' rest
read_counted {A} {B} r w P f h as' rest small p = rw fits (
    then_read read_compact_u16 (λ n. read_many n r >>= f)
      (read-write_compact_u16 (length as') (concat_map w as' ++ rest) small)
    ∙ then_read (read_many (length as') r) f (read_many-append r w P h as' rest p))
  where
    fits : length as' % 2 ^ 16 ≡ length as'
    fits = omega arith

-- A counted byte string.
pub read_counted_bytes :
    {B : Type 0} (f : List ℕ → Reader B) (xs rest : List ℕ)
    → length xs < 2 ^ 16
    → (read_compact_u16 >>= λ n. read_bytes n >>= f)
        (write_compact_u16 (u16 (length xs)) ++ (xs ++ rest))
      ≡ f xs rest
read_counted_bytes f xs rest small = rw fits (
    then_read read_compact_u16 (λ n. read_bytes n >>= f)
      (read-write_compact_u16 (length xs) (xs ++ rest) small)
    ∙ then_read (read_bytes (length xs)) f (read_bytes-append xs rest (length xs) refl))
  where
    fits : length xs % 2 ^ 16 ≡ length xs
    fits = omega arith
