-- ===== src/Lookups/Invariant.antt =====
-- src/solana/message_v0.cpp: the buckets and the registered pairs of the first pass of
-- `MessageV0::compile`.
use mathlib.Core.Path.{subst}
use solana_cpp_sdk.Base.{ℕ, zero, suc, ◌<◌, ◌≡◌, refl, arith, ap, sym, ◌∙◌, List, [], ◌∷◌}
use solana_cpp_sdk.Base.{
  Bool, true, false, ◌&&◌, ◌||◌, ◌==◌, Bool-cases, Option-cases, some, none, inl, inr,
}
use solana_cpp_sdk.Base.{All, All-append, length, get_elem?-lt}
use solana_cpp_sdk.PublicKey.{PublicKey}
use solana_cpp_sdk.LookupTable.{AddressLookupTableAccount}
use solana_cpp_sdk.Lookups.{LookupRef, TableBucket, push_at, push_bucket, upgrade_lookup}
use solana_cpp_sdk.Lookups.Tables.{IsEntry, InBucket}

-- Every index of a bucket is one of its table.
abbrev pub AreInside : List AddressLookupTableAccount → List TableBucket → Type 0
AreInside [] bs = Unit
AreInside (tbl ∷ tables) [] = Unit
AreInside (tbl ∷ tables) (b ∷ bs) =
    (All (λ i. i < length tbl.addresses) b.writable_idx
      × All (λ i. i < length tbl.addresses) b.readonly_idx)
    × AreInside tables bs

AreInside-push_bucket :
    (tbl : AddressLookupTableAccount) (b : TableBucket) (ai : ℕ) (w : Bool)
    → ai < length tbl.addresses
    → (All (λ i. i < length tbl.addresses) b.writable_idx
        × All (λ i. i < length tbl.addresses) b.readonly_idx)
    → All (λ i. i < length tbl.addresses) (push_bucket b ai w).writable_idx
      × All (λ i. i < length tbl.addresses) (push_bucket b ai w).readonly_idx
unfolding push_bucket
AreInside-push_bucket tbl b ai true h (k, l) = (All-append _ b.writable_idx (ai ∷ []) k (h, tt), l)
AreInside-push_bucket tbl b ai false h (k, l) = (k, All-append _ b.readonly_idx (ai ∷ []) l (h, tt))

pub AreInside-push_at :
    (tables : List AddressLookupTableAccount) (bs : List TableBucket) (ti ai : ℕ) (w : Bool)
    (k : PublicKey)
    → IsEntry tables ti ai k
    → AreInside tables bs
    → AreInside tables (push_at bs ti ai w)
unfolding push_at
AreInside-push_at [] bs ti ai w k e h = tt
AreInside-push_at (tbl ∷ tables) [] ti ai w k e h = tt
AreInside-push_at (tbl ∷ tables) (b ∷ bs) zero ai w k e h =
    (AreInside-push_bucket tbl b ai w (get_elem?-lt tbl.addresses ai k e) h.0, h.1)
AreInside-push_at (tbl ∷ tables) (b ∷ bs) (suc ti) ai w k e h =
    (h.0, AreInside-push_at tables bs ti ai w k e h.1)

pub length-push_at :
    (bs : List TableBucket) (ti ai : ℕ) (w : Bool) → length (push_at bs ti ai w) ≡ length bs
unfolding push_at
length-push_at [] ti ai w = refl
length-push_at (b ∷ bs) zero ai w = refl
length-push_at (b ∷ bs) (suc ti) ai w = ap suc (length-push_at bs ti ai w)

pub IsEntry-lt :
    (tables : List AddressLookupTableAccount) (ti ai : ℕ) (k : PublicKey)
    → IsEntry tables ti ai k
    → ti < length tables
IsEntry-lt [] ti ai k e = absurd e
IsEntry-lt (tbl ∷ tables) zero ai k e = omega arith
IsEntry-lt (tbl ∷ tables) (suc ti) ai k e = omega (arith, IsEntry-lt tables ti ai k e)

abbrev pub AreStored : List TableBucket → List LookupRef → Type 0
AreStored bs lks = All (λ lk. InBucket bs lk.table_idx lk.addr_idx) lks

some_injective {ℓ} : {A : Type ℓ} (a b : A) → some a ≡ some b → a ≡ b
some_injective a b e = cc

upgraded :
    (lk : LookupRef) (lks : List LookupRef) (ti ai : ℕ) (w : Bool)
    → ((lk.table_idx == ti) && (lk.addr_idx == ai)) ≡ true
    → upgrade_lookup (lk ∷ lks) ti ai w
      ≡ some (record lk { is_writable = lk.is_writable || w } ∷ lks)
unfolding upgrade_lookup
upgraded lk lks ti ai w e = rw (upgrade_lookup, e) refl

behind :
    (lk : LookupRef) (lks rest : List LookupRef) (ti ai : ℕ) (w : Bool)
    → ((lk.table_idx == ti) && (lk.addr_idx == ai)) ≡ false
    → upgrade_lookup lks ti ai w ≡ some rest
    → upgrade_lookup (lk ∷ lks) ti ai w ≡ some (lk ∷ rest)
unfolding upgrade_lookup
behind lk lks rest ti ai w e f = rw (upgrade_lookup, e, f) refl

missed :
    (lk : LookupRef) (lks : List LookupRef) (ti ai : ℕ) (w : Bool)
    → ((lk.table_idx == ti) && (lk.addr_idx == ai)) ≡ false
    → upgrade_lookup lks ti ai w ≡ none
    → upgrade_lookup (lk ∷ lks) ti ai w ≡ none
unfolding upgrade_lookup
missed lk lks ti ai w e f = rw (upgrade_lookup, e, f) refl

-- A pair that is upgraded was stored, and all pairs stay stored.
pub AreStored-upgrade_lookup :
    (bs : List TableBucket) (lks lks' : List LookupRef) (ti ai : ℕ) (w : Bool)
    → upgrade_lookup lks ti ai w ≡ some lks'
    → AreStored bs lks
    → AreStored bs lks' × InBucket bs ti ai
unfolding upgrade_lookup
AreStored-upgrade_lookup bs [] lks' ti ai w e h = cc
AreStored-upgrade_lookup bs (lk ∷ lks) lks' ti ai w e h =
    elim (Bool-cases ((lk.table_idx == ti) && (lk.addr_idx == ai))) [
      | inl q ↦
          let same = some_injective _ lks' (sym (upgraded lk lks ti ai w q) ∙ e) in
          let t : lk.table_idx ≡ ti = ground (arith, q) in
          let a : lk.addr_idx ≡ ai = ground (arith, q) in
          (
            subst (AreStored bs) same (h.0, h.1),
            subst (λ i. InBucket bs i ai) t (subst (InBucket bs lk.table_idx) a h.0),
          )
      | inr q ↦ elim (Option-cases (upgrade_lookup lks ti ai w)) [
        | inl f ↦ let gone = sym (missed lk lks ti ai w q f) ∙ e in cc
        | inr (rest, f) ↦
            let same = some_injective _ lks' (sym (behind lk lks rest ti ai w q f) ∙ e) in
            let (k, l) = AreStored-upgrade_lookup bs lks rest ti ai w f h.1 in
            (subst (AreStored bs) same (h.0, k), l)
      ]
    ]
