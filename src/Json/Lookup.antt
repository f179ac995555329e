-- ===== src/Json/Lookup.antt =====
-- src/solana/json.cpp: what the accessors of an object find in the text of a tree.
use solana_cpp_sdk.Base.{
  ℕ, zero, suc, ◌+◌, ◌-◌, ◌<◌, ◌≤◌, List, [], ◌∷◌, ◌++◌, Bool, true, false, ◌≡◌, inl, inr,
}
use solana_cpp_sdk.Base.{refl, ap, length, arith, length-append}
use solana_cpp_sdk.Base.{◌&&◌, ◌==◌, bytes_eq, take, if◌then◌else◌, take-append, Bool-cases}
use solana_cpp_sdk.Base.{bytes_eq_sound, ==_iff, some}
use solana_cpp_sdk.Json.{JsonType, null_value, value_of, skip_whitespace, skip_char, is_space}
use solana_cpp_sdk.Json.Access.{content, find_key, index_key}
use solana_cpp_sdk.Json.Access.{skip_quote, entry_value, skip_comma, or_null, is_object}
use solana_cpp_sdk.Json.Reading.{wrap-append, length-wrap, scan_string-key, parse_value-print}
use solana_cpp_sdk.Json.Print.{Tree, mapping, Entries}
use solana_cpp_sdk.Json.Print.{no_entries, entry, print}
use solana_cpp_sdk.Json.Print.{print_entries, print_others, wrap, IsKey, view, type_of, bool_of}
use solana_cpp_sdk.Json.Print.{IsWritten, AreKept, Ends, view_of_key}

pub content-wrap :
    (type : JsonType) (o c : ℕ) (inner rest : List ℕ) (b : Bool)
    → content (value_of type (wrap o inner c ++ rest) (length (wrap o inner c)) b) ≡ inner
unfolding content value_of
content-wrap type o c inner rest b =
    let n : 1 + length inner + 1 - 2 ≡ length inner = omega arith in
    rw (wrap-append o c inner rest, length-wrap o c inner, n)
      (take-append inner (c ∷ rest) (length inner) refl)

matches :
    (k t key : List ℕ)
    → ((length k == length key) && bytes_eq (take (length k) (k ++ t)) key) ≡ bytes_eq k key
matches k t key = rw (take-append k t (length k) refl) (elim (Bool-cases (bytes_eq k key)) [
  | inl e ↦
      let same : (length k == length key) ≡ true =
        (==_iff (length k) (length key)).1 (ap length (bytes_eq_sound k key e)) in
      rw (same, e) refl
  | inr e ↦ ground (arith, e)
])

pub others-Ends : (fields : Entries) → Ends (print_others fields)
unfolding print_others Ends is_space
others-Ends no_entries = tt
others-Ends (entry key j more) = refl

skip_comma-others : (fields : Entries) → skip_comma (print_others fields) ≡ print_entries fields
unfolding print_others print_entries skip_comma skip_whitespace is_space skip_char
skip_comma-others no_entries = refl
skip_comma-others (entry key j more) = refl

entry_value-print :
    (j : Tree) (rest : List ℕ)
    → IsWritten j
    → Ends rest
    → entry_value (34 ∷ 58 ∷ (print j ++ rest)) ≡ (view j rest, rest)
unfolding entry_value skip_whitespace is_space skip_char
entry_value-print j rest h e = parse_value-print j rest h e

find_key-nil : (fuel : ℕ) (name : List ℕ) → find_key (suc fuel) name [] ≡ some null_value
unfolding find_key skip_quote skip_whitespace
find_key-nil fuel name = refl

pub some_if {ℓ} :
    {A : Type ℓ} (b : Bool) (x y : A) → (if b then some x else some y) ≡ some (if b then x else y)
some_if true x y = refl
some_if false x y = refl

entries-le : (fields : Entries) → length (print_entries fields) ≤ length (print_others fields)
unfolding print_entries print_others
entries-le no_entries = omega arith
entries-le (entry key j more) = omega arith

fewer :
    (key : List ℕ) (j : Tree) (more : Entries) (fuel : ℕ)
    → length (print_entries (entry key j more)) < suc fuel
    → length (print_entries more) < fuel
unfolding print_entries wrap
fewer key j more fuel n = omega (
  arith,
  n,
  length-append (wrap 34 key 34) (58 ∷ (print j ++ print_others more)),
  length-append (print j) (print_others more),
  entries-le more,
)

-- One round of the search for a key.
find_key-entry :
    (fuel : ℕ) (name key rest : List ℕ) (j : Tree)
    → IsKey key
    → IsWritten j
    → Ends rest
    → find_key (suc fuel) name (wrap 34 key 34 ++ (58 ∷ (print j ++ rest)))
      ≡ (if bytes_eq key name then some (view j rest) else find_key fuel name (skip_comma rest))
unfolding find_key skip_quote skip_whitespace is_space
find_key-entry fuel name key rest j hk hj e =
    let behind = 58 ∷ (print j ++ rest) in
    rw
      (
        wrap-append 34 34 key behind,
        scan_string-key key behind hk,
        matches key (34 ∷ behind) name,
        entry_value-print j rest hj e,
      )
      refl

find_key-print :
    (fields : Entries) (fuel : ℕ) (name : List ℕ)
    → AreKept fields
    → length (print_entries fields) < fuel
    → find_key fuel name (print_entries fields) ≡ some (view_of_key name fields)
unfolding AreKept print_entries view_of_key
find_key-print fields zero name h n = absurd (omega arith)
find_key-print no_entries (suc fuel) name h n = find_key-nil fuel name
find_key-print (entry key j more) (suc fuel) name (hk, hj, hm) n =
    let next = find_key-print more fuel name hm (fewer key j more fuel n) in
    rw
      (
        find_key-entry fuel name key (print_others more) j hk hj (others-Ends more),
        skip_comma-others more,
        next,
      )
      (some_if (bytes_eq key name) (view j (print_others more)) (view_of_key name more))

-- The operator with a key, on the value that stands for an object whose numbers are digits, whose
-- keys have neither a quote nor a backslash and whose strings do not end in a backslash, gives
-- the value of the first entry with that key, and the null value if there is none.
pub index_key-view :
    (fields : Entries) (name rest : List ℕ)
    → AreKept fields
    → index_key (view (mapping fields) rest) name ≡ view_of_key name fields
unfolding index_key view print type_of bool_of is_object value_of or_null
index_key-view fields name rest h =
    let inner = print_entries fields in
    let found = find_key-print fields (suc (length inner)) name h (omega arith) in
    rw (content-wrap JsonType.object 123 125 inner rest false, found) refl
