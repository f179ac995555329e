-- ===== src/Lookups/Registers.antt =====
-- src/solana/message_v0.cpp: what `findOrAddLookup` does to the buckets of the tables, and to the
-- accounts that are static or in a bucket.
use mathlib.Core.Path.{subst}
use solana_cpp_sdk.Base.{ℕ, ◌≡◌, refl, arith, sym, ◌∙◌, List, [], ◌∷◌, ◌++◌}
use solana_cpp_sdk.Base.{Bool, true, Option-cases, some, inl, inr, ◌⊎◌}
use solana_cpp_sdk.Base.{All-append, length}
use solana_cpp_sdk.Accounts.{keys}
use solana_cpp_sdk.Accounts.Laws.{has_key}
use solana_cpp_sdk.PublicKey.{PublicKey}
use solana_cpp_sdk.LookupTable.{AddressLookupTableAccount}
use solana_cpp_sdk.Lookups.{LookupRef, TableBucket, Pass, push_at, upgrade_lookup}
use solana_cpp_sdk.Lookups.{find_or_add_lookup}
use solana_cpp_sdk.Lookups.Tables.{IsEntry, InBucket, InBucket-push_at, InBucket-pushed}
use solana_cpp_sdk.Lookups.Invariant.{
  AreInside, AreStored, AreInside-push_at, length-push_at, IsEntry-lt, AreStored-upgrade_lookup,
}

module _ (tables : List AddressLookupTableAccount) where
  -- One bucket for each table, its indices inside the table, and each registered pair in a bucket.
  abbrev pub IsLookup : Pass → Type 0
  IsLookup p =
      (length p.table_buckets ≡ length tables)
      × AreInside tables p.table_buckets
      × AreStored p.table_buckets p.registered_lookups

  -- A static account, or the entry of a table whose index is in the table's bucket.
  abbrev pub Known : Pass → PublicKey → Type 0
  Known p k =
      (has_key (keys p.static_accounts) k ≡ true)
      ⊎ ((ti : ℕ) × (ai : ℕ) × (IsEntry tables ti ai k × InBucket p.table_buckets ti ai))

  AreStored-push_at :
      (bs : List TableBucket) (lks : List LookupRef) (ti ai : ℕ) (w : Bool)
      → AreStored bs lks
      → AreStored (push_at bs ti ai w) lks
  AreStored-push_at bs [] ti ai w h = tt
  AreStored-push_at bs (lk ∷ lks) ti ai w h = (
    InBucket-push_at bs ti ai lk.table_idx lk.addr_idx w h.0,
    AreStored-push_at bs lks ti ai w h.1,
  )

  -- What a registered lookup does to the invariant, to the known accounts, and to its own.
  abbrev pub Registers : Pass → Pass → ℕ → ℕ → Type 0
  Registers p q ti ai =
      IsLookup q × ((k : PublicKey) → Known p k → Known q k) × InBucket q.table_buckets ti ai

  Registers-old :
      (p : Pass) (ti ai : ℕ) (w : Bool) (lks : List LookupRef)
      → IsLookup p
      → upgrade_lookup p.registered_lookups ti ai w ≡ some lks
      → Registers p (record p { registered_lookups = lks }) ti ai
  Registers-old p ti ai w lks (n, inside, stored) e =
      let (k, l) =
        AreStored-upgrade_lookup p.table_buckets p.registered_lookups lks ti ai w e stored in
      ((n, inside, k), (λ j known. known), l)

  Known-pushed :
      (p : Pass) (lks : List LookupRef) (ti ai : ℕ) (w : Bool) (k : PublicKey)
      → Known p k
      → Known
          (record p { registered_lookups = lks; table_buckets = push_at p.table_buckets ti ai w })
          k
  Known-pushed p lks ti ai w k (inl h) = inl h
  Known-pushed p lks ti ai w k (inr (tj, aj, (h, g))) =
      inr (tj, aj, (h, InBucket-push_at p.table_buckets ti ai tj aj w g))

  Registers-new :
      (p : Pass) (ti ai : ℕ) (w : Bool) (k : PublicKey)
      → IsLookup p
      → IsEntry tables ti ai k
      → Registers p
          (record p {
            registered_lookups =
                p.registered_lookups
                ++ (record { table_idx = ti; addr_idx = ai; is_writable = w } ∷ []);
            table_buckets = push_at p.table_buckets ti ai w;
          })
          ti
          ai
  Registers-new p ti ai w k (n, inside, stored) e =
      let bs = p.table_buckets in
      let lks =
        p.registered_lookups ++ (record { table_idx = ti; addr_idx = ai; is_writable = w } ∷ []) in
      let there = InBucket-pushed bs ti ai w (omega (arith, n, IsEntry-lt tables ti ai k e)) in
      (
        (
          length-push_at bs ti ai w ∙ n,
          AreInside-push_at tables bs ti ai w k e inside,
          All-append _ p.registered_lookups _
              (AreStored-push_at bs p.registered_lookups ti ai w stored) (there, tt),
        ),
        Known-pushed p lks ti ai w,
        there,
      )

  pub find_or_add_lookup-Registers :
      (p : Pass) (ti ai : ℕ) (w : Bool) (k : PublicKey)
      → IsLookup p
      → IsEntry tables ti ai k
      → Registers p (find_or_add_lookup p ti ai w) ti ai
  unfolding find_or_add_lookup
  find_or_add_lookup-Registers p ti ai w k h e =
      elim (Option-cases (upgrade_lookup p.registered_lookups ti ai w)) [
        | inl f ↦
            subst (λ q. Registers p q ti ai) (sym (rw (find_or_add_lookup, f) refl))
              (Registers-new p ti ai w k h e)
        | inr (lks, f) ↦
            subst (λ q. Registers p q ti ai) (sym (rw (find_or_add_lookup, f) refl))
              (Registers-old p ti ai w lks h f)
      ]
