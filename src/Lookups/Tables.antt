-- ===== src/Lookups/Tables.antt =====
-- src/solana/message_v0.cpp: where the lookups of the first pass of `MessageV0::compile` lead.
use solana_cpp_sdk.Base.{
  ℕ, zero, suc, ◌+◌, ◌<◌, ◌≤◌, ◌≡◌, refl, arith, ap, sym, ◌∙◌, List, [], ◌∷◌, ◌++◌,
}
use solana_cpp_sdk.Base.{Bool, true, false, Bool-cases, Option-cases, some, none, inl, inr, ◌⊎◌}
use solana_cpp_sdk.Base.{All, length, get_elem?, get_elem?-append_left, get_elem?-append_right, Has}
use mathlib.Core.Path.{subst}
use solana_cpp_sdk.PublicKey.{PublicKey, equals}
use solana_cpp_sdk.PublicKey.Laws.{equals_iff}
use solana_cpp_sdk.LookupTable.{AddressLookupTableAccount}
use solana_cpp_sdk.Lookups.{
  LookupRef, TableBucket, find_address, find_in_lookup, push_at, push_bucket,
}

-- An entry of a table.
abbrev pub IsEntry : List AddressLookupTableAccount → ℕ → ℕ → PublicKey → Type 0
IsEntry [] ti ai k = ⊥
IsEntry (tbl ∷ tables) zero ai k = get_elem? tbl.addresses ai ≡ some k
IsEntry (tbl ∷ tables) (suc ti) ai k = IsEntry tables ti ai k

abbrev pub InBucket : List TableBucket → ℕ → ℕ → Type 0
InBucket [] ti ai = ⊥
InBucket (b ∷ bs) zero ai = Has ai b.writable_idx ⊎ Has ai b.readonly_idx
InBucket (b ∷ bs) (suc ti) ai = InBucket bs ti ai

-- The tables that an index of one byte reaches in full.
abbrev pub AreShort : List AddressLookupTableAccount → Type 0
AreShort tables = All (λ tbl. length tbl.addresses ≤ 256) tables

find_address_lem :
    (addresses : List PublicKey) (ai : ℕ) (pk : PublicKey) (found : ℕ)
    → ai + length addresses ≤ 256
    → find_address ai addresses pk ≡ some found
    → (i : ℕ) × ((found ≡ ai + i) × (get_elem? addresses i ≡ some pk))
unfolding find_address
find_address_lem [] ai pk found n e = cc
find_address_lem (a ∷ addresses) ai pk found n e = elim (Bool-cases (equals a pk)) [
  | inl q ↦
      let here : found ≡ ai + 0 = ground (arith, q, e) in
      (0, (here, ap some ((equals_iff a pk).0 q)))
  | inr q ↦
      let later : find_address (ai + 1) addresses pk ≡ some found = ground (arith, q, e) in
      let (i, (f, g)) = find_address_lem addresses (ai + 1) pk found (omega (arith, n)) later in
      (suc i, (omega (arith, f), g))
]

passed_over :
    (tbl : AddressLookupTableAccount) (tables : List AddressLookupTableAccount) (ti : ℕ)
    (pk : PublicKey) (w : Bool)
    → find_address 0 tbl.addresses pk ≡ none
    → find_in_lookup ti (tbl ∷ tables) pk w ≡ find_in_lookup (ti + 1) tables pk w
unfolding find_in_lookup
passed_over tbl tables ti pk w q = rw (find_in_lookup, q) refl

hit :
    (tbl : AddressLookupTableAccount) (tables : List AddressLookupTableAccount) (ti ai : ℕ)
    (pk : PublicKey) (w : Bool)
    → find_address 0 tbl.addresses pk ≡ some ai
    → find_in_lookup ti (tbl ∷ tables) pk w
      ≡ some (record { table_idx = ti; addr_idx = ai; is_writable = w })
unfolding find_in_lookup
hit tbl tables ti ai pk w q = rw (find_in_lookup, q) refl

some_injective : (a b : LookupRef) → some a ≡ some b → a ≡ b
some_injective a b e = cc

find_in_lookup-IsEntry_from :
    (tables : List AddressLookupTableAccount) (ti : ℕ) (pk : PublicKey) (w : Bool) (ref : LookupRef)
    → AreShort tables
    → find_in_lookup ti tables pk w ≡ some ref
    → (i : ℕ) × ((ref.table_idx ≡ ti + i) × IsEntry tables i ref.addr_idx pk)
unfolding find_in_lookup
find_in_lookup-IsEntry_from [] ti pk w ref h e = cc
find_in_lookup-IsEntry_from (tbl ∷ tables) ti pk w ref h e =
    elim (Option-cases (find_address 0 tbl.addresses pk)) [
      | inl q ↦
          let later = sym (passed_over tbl tables ti pk w q) ∙ e in
          let (i, (f, g)) = find_in_lookup-IsEntry_from tables (ti + 1) pk w ref h.1 later in
          (suc i, (omega (arith, f), g))
      | inr (ai, q) ↦
          let (i, (f, g)) = find_address_lem tbl.addresses 0 pk ai (omega (arith, h.0)) q in
          let same = some_injective _ ref (sym (hit tbl tables ti ai pk w q) ∙ e) in
          (
            0,
            (
              sym (ap (λ r. r.table_idx) same) ∙ omega arith,
              subst (λ n. get_elem? tbl.addresses n ≡ some pk)
                  (omega (arith, f) ∙ ap (λ r. r.addr_idx) same) g,
            ),
          )
    ]

pub find_in_lookup-IsEntry :
    (tables : List AddressLookupTableAccount) (pk : PublicKey) (w : Bool) (ref : LookupRef)
    → AreShort tables
    → find_in_lookup 0 tables pk w ≡ some ref
    → IsEntry tables ref.table_idx ref.addr_idx pk
find_in_lookup-IsEntry tables pk w ref h e =
    let (i, (f, g)) = find_in_lookup-IsEntry_from tables 0 pk w ref h e in
    subst (λ n. IsEntry tables n ref.addr_idx pk) (omega (arith, f)) g

-- An index put into a bucket is there, and the others stay.
Has-append_left : (xs ys : List ℕ) (a : ℕ) → Has a xs → Has a (xs ++ ys)
Has-append_left xs ys a (i, e) = (i, get_elem?-append_left xs ys i a e)

Has-last : (xs : List ℕ) (a : ℕ) → Has a (xs ++ (a ∷ []))
Has-last xs a = (length xs, get_elem?-append_right xs (a ∷ []) 0 (length xs) (omega arith))

InBucket-push_bucket :
    (b : TableBucket) (bs : List TableBucket) (ai aj : ℕ) (w : Bool)
    → InBucket (b ∷ bs) 0 aj
    → InBucket (push_bucket b ai w ∷ bs) 0 aj
unfolding push_bucket
InBucket-push_bucket b bs ai aj true (inl h) = inl (Has-append_left b.writable_idx (ai ∷ []) aj h)
InBucket-push_bucket b bs ai aj true (inr h) = inr h
InBucket-push_bucket b bs ai aj false (inl h) = inl h
InBucket-push_bucket b bs ai aj false (inr h) = inr (Has-append_left b.readonly_idx (ai ∷ []) aj h)

pub InBucket-push_at :
    (bs : List TableBucket) (ti ai tj aj : ℕ) (w : Bool)
    → InBucket bs tj aj
    → InBucket (push_at bs ti ai w) tj aj
unfolding push_at
InBucket-push_at [] ti ai tj aj w h = absurd h
InBucket-push_at (b ∷ bs) zero ai zero aj w h = InBucket-push_bucket b bs ai aj w h
InBucket-push_at (b ∷ bs) zero ai (suc tj) aj w h = h
InBucket-push_at (b ∷ bs) (suc ti) ai zero aj w h = h
InBucket-push_at (b ∷ bs) (suc ti) ai (suc tj) aj w h = InBucket-push_at bs ti ai tj aj w h

in_pushed :
    (b : TableBucket) (bs : List TableBucket) (ai : ℕ) (w : Bool)
    → InBucket (push_bucket b ai w ∷ bs) 0 ai
unfolding push_bucket
in_pushed b bs ai true = inl (Has-last b.writable_idx ai)
in_pushed b bs ai false = inr (Has-last b.readonly_idx ai)

pub InBucket-pushed :
    (bs : List TableBucket) (ti ai : ℕ) (w : Bool)
    → ti < length bs
    → InBucket (push_at bs ti ai w) ti ai
unfolding push_at
InBucket-pushed [] ti ai w h = absurd (omega arith)
InBucket-pushed (b ∷ bs) zero ai w h = in_pushed b bs ai w
InBucket-pushed (b ∷ bs) (suc ti) ai w h = InBucket-pushed bs ti ai w (omega arith)
