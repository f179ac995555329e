-- ===== src/Json/Written.antt =====
-- A test for the trees that the parser of src/solana/json.cpp is meant for.
use solana_cpp_sdk.Base.{ℕ, List, [], ◌∷◌, Bool, true, not, ◌&&◌, ◌||◌, ◌==◌, ◌≡◌, arith, All}
use solana_cpp_sdk.Json.{is_digit}
use solana_cpp_sdk.Json.Print.{
  Tree, nothing, flag, digits, quoted, listing, mapping, Items, Entries,
}
use solana_cpp_sdk.Json.Print.{
  no_items, item, no_entries, entry, last_or, IsKey, IsWritten, AreWritten, AreKept,
}

unfoldable pub is_key : List ℕ → Bool
is_key [] = true
is_key (c ∷ s) = not (c == 34 || c == 92) && is_key s

unfoldable pub are_digits : List ℕ → Bool
are_digits [] = true
are_digits (c ∷ s) = is_digit c && are_digits s

unfoldable mutual
  pub is_written : Tree → Bool
  is_written nothing = true
  is_written (flag b) = true
  is_written (digits d ds) = is_digit d && are_digits ds
  is_written (quoted s) = not (last_or 0 s == 92)
  is_written (listing items) = are_written items
  is_written (mapping fields) = are_kept fields

  pub are_written : Items → Bool
  are_written no_items = true
  are_written (item j more) = is_written j && are_written more

  pub are_kept : Entries → Bool
  are_kept no_entries = true
  are_kept (entry key j more) = is_key key && (is_written j && are_kept more)

is_key-IsKey : (key : List ℕ) → is_key key ≡ true → IsKey key
unfolding is_key IsKey
is_key-IsKey [] h = tt
is_key-IsKey (c ∷ s) h =
    (((λ e. ground arith), (λ e. ground arith)), is_key-IsKey s (ground (arith, h)))

are_digits-is_digit : (s : List ℕ) → are_digits s ≡ true → All (λ c. is_digit c ≡ true) s
unfolding are_digits
are_digits-is_digit [] h = tt
are_digits-is_digit (c ∷ s) h = (ground (arith, h), are_digits-is_digit s (ground (arith, h)))

mutual
  unfolding is_written are_written are_kept IsWritten AreWritten AreKept

  pub is_written-IsWritten : (j : Tree) → is_written j ≡ true → IsWritten j
  is_written-IsWritten nothing h = tt
  is_written-IsWritten (flag b) h = tt
  is_written-IsWritten (digits d ds) h =
      (ground (arith, h), are_digits-is_digit ds (ground (arith, h)))
  is_written-IsWritten (quoted s) h = λ e. ground (arith, h, e)
  is_written-IsWritten (listing items) h = are_written-AreWritten items h
  is_written-IsWritten (mapping fields) h = are_kept-AreKept fields h

  pub are_written-AreWritten : (items : Items) → are_written items ≡ true → AreWritten items
  are_written-AreWritten no_items h = tt
  are_written-AreWritten (item j more) h =
      (is_written-IsWritten j (ground (arith, h)), are_written-AreWritten more (ground (arith, h)))

  pub are_kept-AreKept : (fields : Entries) → are_kept fields ≡ true → AreKept fields
  are_kept-AreKept no_entries h = tt
  are_kept-AreKept (entry key j more) h = (
    is_key-IsKey key (ground (arith, h)),
    is_written-IsWritten j (ground (arith, h)),
    are_kept-AreKept more (ground (arith, h)),
  )
