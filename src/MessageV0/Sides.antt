-- ===== src/MessageV0/Sides.antt =====
-- src/solana/message_v0.cpp: the keys that `MessageV0::compile` resolves indices in.
use solana_cpp_sdk.Base.{
  ℕ, zero, suc, ◌<◌, ◌≡◌, refl, arith, ap, sym, ◌∙◌, List, [], ◌∷◌, ◌++◌, Bool, true, false, not,
  ◌&&◌, ◌||◌,
}
use solana_cpp_sdk.Base.{some, if◌then◌else◌, ok, All, length, get_elem?, get_elem?-some, Has}
use solana_cpp_sdk.Accounts.{AccountInfo, keys}
use solana_cpp_sdk.Accounts.Laws.{has_key}
use solana_cpp_sdk.PublicKey.{PublicKey, equals}
use solana_cpp_sdk.PublicKey.Laws.{equals_iff}
use solana_cpp_sdk.LookupTable.{AddressLookupTableAccount}
use solana_cpp_sdk.Lookups.{TableBucket}
use solana_cpp_sdk.Lookups.Tables.{IsEntry}
use solana_cpp_sdk.MessageV0.{select, address_at, addresses_at, lookup_keys}

pub has_key-append :
    (xs ys : List PublicKey) (k : PublicKey) → has_key (xs ++ ys) k ≡ (has_key xs k || has_key ys k)
has_key-append [] ys k = refl
has_key-append (x ∷ xs) ys k = ground (arith, has_key-append xs ys k)

some_key : (x k : PublicKey) → some x ≡ some k → x ≡ k
some_key x k e = cc

has_key-get_elem? :
    (xs : List PublicKey) (i : ℕ) (k : PublicKey) → get_elem? xs i ≡ some k → has_key xs k ≡ true
has_key-get_elem? [] i k e = cc
has_key-get_elem? (x ∷ xs) zero k e = ground (arith, (equals_iff x k).1 (some_key x k e))
has_key-get_elem? (x ∷ xs) (suc i) k e = ground (arith, has_key-get_elem? xs i k e)

taken :
    (b : Bool) (a : AccountInfo) (l : List AccountInfo) (k : PublicKey)
    → has_key (keys (if b then a ∷ l else l)) k ≡ ((b && equals a.key k) || has_key (keys l) k)
unfolding keys
taken true a l k = refl
taken false a l k = refl

-- A key of the table of accounts stands in one of the four groups.
pub grouped :
    (l : List AccountInfo) (k : PublicKey)
    → has_key (keys l) k ≡ true
    → (has_key (keys (select (λ a. a.is_signer && a.is_writable) l)) k
        || (has_key (keys (select (λ a. a.is_signer && not a.is_writable) l)) k
            || (has_key (keys (select (λ a. not a.is_signer && a.is_writable) l)) k
                || has_key (keys (select (λ a. not a.is_signer && not a.is_writable) l)) k)))
      ≡ true
unfolding select keys
grouped [] k h = h
grouped (a ∷ l) k h =
    rw
      (
        taken (a.is_signer && a.is_writable) a (select (λ a. a.is_signer && a.is_writable) l) k,
        taken (a.is_signer && not a.is_writable) a
            (select (λ a. a.is_signer && not a.is_writable) l) k,
        taken (not a.is_signer && a.is_writable) a
            (select (λ a. not a.is_signer && a.is_writable) l) k,
        taken (not a.is_signer && not a.is_writable) a
            (select (λ a. not a.is_signer && not a.is_writable) l) k,
      )
      (ground (arith, h, grouped l k))

Has-nothing : (ai : ℕ) (k : PublicKey) → Has ai [] → has_key [] k ≡ true
Has-nothing ai k (i, e) = cc

some_index : (i j : ℕ) → some i ≡ some j → i ≡ j
some_index i j e = cc

Has-more :
    (addresses : List PublicKey) (i : ℕ) (idxs : List ℕ) (x : PublicKey) (ks : List PublicKey)
    (ai : ℕ) (k : PublicKey)
    → get_elem? addresses i ≡ some x
    → (Has ai idxs → get_elem? addresses ai ≡ some k → has_key ks k ≡ true)
    → Has ai (i ∷ idxs)
    → get_elem? addresses ai ≡ some k
    → has_key (x ∷ ks) k ≡ true
Has-more addresses i idxs x ks ai k e all (zero, f) g =
    let same = some_key x k (sym e ∙ (ap (get_elem? addresses) (some_index i ai f) ∙ g)) in
    ground (arith, (equals_iff x k).1 same)
Has-more addresses i idxs x ks ai k e all (suc j, f) g = ground (arith, all (j, f) g)

-- One side of the buckets.
module _ (side : TableBucket → List ℕ) where
  abbrev pub AreWithin : List AddressLookupTableAccount → List TableBucket → Type 0
  AreWithin [] bs = Unit
  AreWithin (tbl ∷ tables) [] = Unit
  AreWithin (tbl ∷ tables) (b ∷ bs) =
      All (λ i. i < length tbl.addresses) (side b) × AreWithin tables bs

  abbrev pub HasAt : List TableBucket → ℕ → ℕ → Type 0
  HasAt [] ti ai = ⊥
  HasAt (b ∷ bs) zero ai = Has ai (side b)
  HasAt (b ∷ bs) (suc ti) ai = HasAt bs ti ai

  addresses_at_ok :
      (addresses : List PublicKey) (idxs : List ℕ)
      → All (λ i. i < length addresses) idxs
      → (ks : List PublicKey) × ((addresses_at addresses idxs ≡ ok ks)
          × ((ai : ℕ) (k : PublicKey)
              → Has ai idxs
              → get_elem? addresses ai ≡ some k
              → has_key ks k ≡ true))
  unfolding addresses_at address_at
  addresses_at_ok addresses [] h = ([], (refl, λ ai k has e. Has-nothing ai k has))
  addresses_at_ok addresses (i ∷ idxs) h =
      let (x, e) = get_elem?-some addresses i h.0 in
      let (ks, (f, all)) = addresses_at_ok addresses idxs h.1 in
      (
        x ∷ ks,
        (rw (e, f) refl, λ ai k has g. Has-more addresses i idxs x ks ai k e (all ai k) has g),
      )

  in_either :
      (tbl : AddressLookupTableAccount) (tables : List AddressLookupTableAccount) (b : TableBucket)
      (bs : List TableBucket) (ks rest : List PublicKey)
      → ((ai : ℕ) (k : PublicKey)
          → Has ai (side b)
          → get_elem? tbl.addresses ai ≡ some k
          → has_key ks k ≡ true)
      → ((ti ai : ℕ) (k : PublicKey)
          → IsEntry tables ti ai k
          → HasAt bs ti ai
          → has_key rest k ≡ true)
      → (ti ai : ℕ) (k : PublicKey) → IsEntry (tbl ∷ tables) ti ai k
      → HasAt (b ∷ bs) ti ai
      → has_key (ks ++ rest) k ≡ true
  in_either tbl tables b bs ks rest first later zero ai k entry has =
      has_key-append ks rest k ∙ ground (arith, first ai k has entry)
  in_either tbl tables b bs ks rest first later (suc ti) ai k entry has =
      has_key-append ks rest k ∙ ground (arith, later ti ai k entry has)

  pub lookup_keys_ok :
      (tables : List AddressLookupTableAccount) (bs : List TableBucket)
      → AreWithin tables bs
      → (ks : List PublicKey) × ((lookup_keys side tables bs ≡ ok ks)
          × ((ti ai : ℕ) (k : PublicKey)
              → IsEntry tables ti ai k
              → HasAt bs ti ai
              → has_key ks k ≡ true))
  unfolding lookup_keys
  lookup_keys_ok [] bs h = ([], (refl, λ ti ai k e has. absurd e))
  lookup_keys_ok (tbl ∷ tables) [] h = ([], (refl, λ ti ai k e has. absurd has))
  lookup_keys_ok (tbl ∷ tables) (b ∷ bs) h =
      let (ks, (e, first)) = addresses_at_ok tbl.addresses (side b) h.0 in
      let (rest, (f, later)) = lookup_keys_ok tables bs h.1 in
      (
        ks ++ rest,
        (
          rw (e, f) refl,
          λ ti ai k entry has. in_either tbl tables b bs ks rest first later ti ai k entry has,
        ),
      )
