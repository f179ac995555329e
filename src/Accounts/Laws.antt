-- ===== src/Accounts/Laws.antt =====
-- The table of accounts as a map from keys to flags.
use solana_cpp_sdk.Base.{ℕ, suc, ◌+◌, ◌≤◌, ◌≡◌, refl, arith, ap, ◌∙◌}
use solana_cpp_sdk.Base.{List, [], ◌∷◌, Bool, true, false, ◌&&◌, ◌||◌, if◌then◌else◌}
use solana_cpp_sdk.Base.{some, u8, length, get_elem?, All, Bool-cases, inl, inr}
use solana_cpp_sdk.PublicKey.{PublicKey, equals}
use solana_cpp_sdk.PublicKey.Laws.{equals_iff}
use solana_cpp_sdk.Accounts.{AccountInfo, upgrade, find_or_add, keys, index_from}

-- No key stands twice in the list.
abbrev pub Distinct : List PublicKey → Type 0
Distinct [] = Unit
Distinct (k ∷ ks) = All (λ k'. equals k k' ≡ false) ks × Distinct ks

abbrev pub has_key : List PublicKey → PublicKey → Bool
has_key [] k = false
has_key (x ∷ xs) k = equals x k || has_key xs k

-- The flags of a key; a key that is not in the table has none.
abbrev pub signs : List AccountInfo → PublicKey → Bool
signs [] k = false
signs (a ∷ accounts) k = if equals a.key k then a.is_signer else signs accounts k

abbrev pub writes : List AccountInfo → PublicKey → Bool
writes [] k = false
writes (a ∷ accounts) k = if equals a.key k then a.is_writable else writes accounts k

pub has_key-find_or_add :
    (l : List AccountInfo) (pk : PublicKey) (s w : Bool) (k : PublicKey)
    → has_key (keys (find_or_add l pk s w)) k ≡ (equals pk k || has_key (keys l) k)
unfolding find_or_add keys upgrade
has_key-find_or_add [] pk s w k = refl
has_key-find_or_add (a ∷ l) pk s w k =
    ground (arith, equals_iff a.key pk, has_key-find_or_add l pk s w k)

pub signs-find_or_add :
    (l : List AccountInfo) (pk : PublicKey) (s w : Bool) (k : PublicKey)
    → signs (find_or_add l pk s w) k ≡ ((equals pk k && s) || signs l k)
unfolding find_or_add upgrade
signs-find_or_add [] pk s w k = ground arith
signs-find_or_add (a ∷ l) pk s w k =
    ground (
      arith,
      equals_iff a.key pk,
      equals_iff a.key k,
      equals_iff pk k,
      signs-find_or_add l pk s w k,
    )

pub writes-find_or_add :
    (l : List AccountInfo) (pk : PublicKey) (s w : Bool) (k : PublicKey)
    → writes (find_or_add l pk s w) k ≡ ((equals pk k && w) || writes l k)
unfolding find_or_add upgrade
writes-find_or_add [] pk s w k = ground arith
writes-find_or_add (a ∷ l) pk s w k =
    ground (
      arith,
      equals_iff a.key pk,
      equals_iff a.key k,
      equals_iff pk k,
      writes-find_or_add l pk s w k,
    )

All-find_or_add :
    (x : PublicKey) (l : List AccountInfo) (pk : PublicKey) (s w : Bool)
    → equals x pk ≡ false
    → All (λ k'. equals x k' ≡ false) (keys l)
    → All (λ k'. equals x k' ≡ false) (keys (find_or_add l pk s w))
unfolding find_or_add keys upgrade
All-find_or_add x [] pk s w ne h = (ne, tt)
All-find_or_add x (a ∷ l) pk s w ne h = elim (Bool-cases (equals a.key pk)) [
  | inl e ↦ rw e h
  | inr e ↦ rw e (h.0, All-find_or_add x l pk s w ne h.1)
]

pub Distinct-find_or_add :
    (l : List AccountInfo) (pk : PublicKey) (s w : Bool)
    → Distinct (keys l)
    → Distinct (keys (find_or_add l pk s w))
unfolding find_or_add keys upgrade
Distinct-find_or_add [] pk s w d = (tt, tt)
Distinct-find_or_add (a ∷ l) pk s w d = elim (Bool-cases (equals a.key pk)) [
  | inl e ↦ rw e d
  | inr e ↦ rw e (All-find_or_add a.key l pk s w e d.0, Distinct-find_or_add l pk s w d.1)
]

-- The first entry stays in front.
pub head-find_or_add :
    (a : AccountInfo) (l : List AccountInfo) (pk : PublicKey) (s w : Bool)
    → get_elem? (keys (find_or_add (a ∷ l) pk s w)) 0 ≡ some a.key
unfolding find_or_add keys upgrade
head-find_or_add a l pk s w = elim (Bool-cases (equals a.key pk)) [ inl e ↦ rw e | inr e ↦ rw e ]

-- A key of a list of at most 256 keys is found at the index where it stands.
pub index_from-has_key :
    (ks : List PublicKey) (i : ℕ) (pk : PublicKey)
    → i + length ks ≤ 256
    → has_key ks pk ≡ true
    → (j : ℕ) × (index_from i ks pk ≡ some (i + j)) × (get_elem? ks j ≡ some pk)
unfolding index_from
index_from-has_key [] i pk small h = cc
index_from-has_key (k ∷ ks) i pk small h = elim (Bool-cases (equals k pk)) [
  | inl e ↦ (0, rw e (ap some (omega arith)), ap some ((equals_iff k pk).0 e))
  | inr e ↦
      let (j, found, there) = index_from-has_key ks (i + 1) pk (omega arith) (ground arith) in
      (suc j, rw e (found ∙ ap some (omega arith)), there)
]

-- A key of a list of any length is found.
pub index_from-found :
    (ks : List PublicKey) (i : ℕ) (pk : PublicKey)
    → has_key ks pk ≡ true
    → (j : ℕ) × (index_from i ks pk ≡ some j)
unfolding index_from
index_from-found [] i pk h = cc
index_from-found (k ∷ ks) i pk h = elim (Bool-cases (equals k pk)) [
  | inl e ↦ (u8 i, rw e)
  | inr e ↦ rw e (index_from-found ks (i + 1) pk (ground arith))
]
