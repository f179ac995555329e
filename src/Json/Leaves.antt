-- ===== src/Json/Leaves.antt =====
-- src/solana/json.cpp: what the accessors of a string and of a number give for the text of a tree,
-- and the entries of an object as trees.
use solana_cpp_sdk.Base.{
  ℕ, ◌+◌, ◌-◌, ◌*◌, ◌^◌, ◌<◌, List, [], ◌∷◌, ◌++◌, true, false, ◌≡◌, ◌≢◌, inl, inr,
}
use solana_cpp_sdk.Base.{refl, length, All, arith, ltb, lt→ltb, ok}
use solana_cpp_sdk.Base.{◌==◌, bytes_eq, if◌then◌else◌, Bool-cases, Option, none, some}
use mathlib.Core.Path.{subst}
use solana_cpp_sdk.Json.{JsonType, value_of, is_digit, is_space}
use solana_cpp_sdk.Json.Access.{
  as_string, as_uint, digits_value, strtoull, unescape, is_string, is_number,
}
use solana_cpp_sdk.Json.Brackets.{escape_char_cases}
use solana_cpp_sdk.Json.Lookup.{content-wrap, others-Ends}
use solana_cpp_sdk.Json.Reading.{length-wrap}
use solana_cpp_sdk.Json.Print.{Tree, digits, quoted, Entries}
use solana_cpp_sdk.Json.Print.{
  no_entries, entry, print, print_others, escape, view, type_of, bool_of, view_of_key,
}
use solana_cpp_sdk.Json.Print.{IsWritten, AreKept, Ends}

-- A number from its decimal digits.
unfoldable pub decimal : List ℕ → ℕ → ℕ
decimal [] n = n
decimal (c ∷ s) n = decimal s (n * 10 + (c - 48))

-- The first entry with a key.
unfoldable pub find_tree : List ℕ → Entries → Option Tree
find_tree name no_entries = none
find_tree name (entry key j more) =
    let later = find_tree name more in if bytes_eq key name then some j else later

unescape_plain : (c : ℕ) (s : List ℕ) → c ≢ 92 → unescape (c ∷ s) ≡ c ∷ unescape s
unfolding unescape
unescape_plain c [] n = refl
unescape_plain c (d ∷ s) n =
    let plain : (c == 92) ≡ false = ground arith in rw (unescape, plain) refl

pub unescape-escape : (s : List ℕ) → unescape (escape s) ≡ s
unfolding unescape escape
unescape-escape [] = refl
unescape-escape (y ∷ s) = elim (escape_char_cases y) [
  | inl (z, (e, (k, r))) ↦ rw (e, r, unescape-escape s) refl
  | inr (e, (m, n)) ↦ rw (e, unescape_plain y (escape s) n, unescape-escape s) refl
]

pub as_string-view : (s rest : List ℕ) → as_string (view (quoted s) rest) ≡ ok s
unfolding as_string view print type_of bool_of is_string value_of
as_string-view s rest =
    let long : ltb (1 + length (escape s) + 1) 2 ≡ false = ground arith in
    rw
      (
        content-wrap JsonType.string 34 34 (escape s) rest false,
        unescape-escape s,
        length-wrap 34 34 (escape s),
        long,
      )
      refl

digits_value-Ends : (s : List ℕ) (n : ℕ) → Ends s → digits_value s n ≡ n
unfolding digits_value Ends is_digit is_space
digits_value-Ends [] n e = refl
digits_value-Ends (c ∷ s) n e = let no_digit : is_digit c ≡ false = ground arith in rw no_digit refl

digits_value-decimal :
    (s rest : List ℕ) (n : ℕ)
    → All (λ c. is_digit c ≡ true) s
    → Ends rest
    → digits_value (s ++ rest) n ≡ decimal s n
unfolding digits_value decimal
digits_value-decimal [] rest n h e = digits_value-Ends rest n e
digits_value-decimal (c ∷ s) rest n h e =
    rw h.0 (digits_value-decimal s rest (n * 10 + (c - 48)) h.1 e)

no_sign : (d : ℕ) → is_digit d ≡ true → (d == 45) ≡ false
unfolding is_digit
no_sign d h = ground arith

pub as_uint-view :
    (d : ℕ) (ds rest : List ℕ)
    → IsWritten (digits d ds)
    → Ends rest
    → decimal (d ∷ ds) 0 < 2 ^ 64
    → as_uint (view (digits d ds) rest) ≡ decimal (d ∷ ds) 0
unfolding as_uint view print type_of bool_of is_number value_of strtoull IsWritten
as_uint-view d ds rest (h, hs) e small =
    let unsigned : (d == 45) ≡ false = no_sign d h in
    let fits : ltb (decimal (d ∷ ds) 0) (2 ^ 64) ≡ true =
      lt→ltb (decimal (d ∷ ds) 0) (2 ^ 64) small in
    rw (unsigned, digits_value-decimal (d ∷ ds) rest 0 (h, hs) e, fits) refl

pub view_of_key-find_tree :
    (name : List ℕ) (fields : Entries) (j : Tree)
    → AreKept fields
    → find_tree name fields ≡ some j
    → IsWritten j × ((rest : List ℕ) × (Ends rest × (view_of_key name fields ≡ view j rest)))
unfolding find_tree AreKept view_of_key
view_of_key-find_tree name no_entries j h e = cc
view_of_key-find_tree name (entry key k more) j (hk, hj, hm) e =
    elim (Bool-cases (bytes_eq key name)) [
      | inl q ↦
          let same : k ≡ j = ground (arith, e) in
          (subst IsWritten same hj, (print_others more, (others-Ends more, rw (q, same) refl)))
      | inr q ↦
          let later : find_tree name more ≡ some j = ground (arith, e) in
          let (w, (rest, (f, g))) = view_of_key-find_tree name more j hm later in
          (w, (rest, (f, rw q g)))
    ]
