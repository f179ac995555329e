-- ===== src/Json/Arrays.antt =====
-- src/solana/json.cpp: what the accessors of an array find in the text of a tree.
use solana_cpp_sdk.Base.{ℕ, zero, suc, ◌+◌, ◌<◌, ◌≤◌, List, [], ◌∷◌, ◌++◌, true, false, ◌≡◌}
use solana_cpp_sdk.Base.{refl, sym, ap, ◌∙◌, length, arith, length-append}
use solana_cpp_sdk.Base.{some}
use solana_cpp_sdk.Json.{
  JsonType, JsonValue, null_value, value_of, parse_value, skip_whitespace, skip_char, is_space,
  is_digit,
}
use solana_cpp_sdk.Json.Access.{find_at, index_at, count_values, array_size}
use solana_cpp_sdk.Json.Access.{skip_comma, is_array}
use solana_cpp_sdk.Json.Reading.{parse_value-print}
use solana_cpp_sdk.Json.Reading.{skip_whitespace-no_space}
use solana_cpp_sdk.Json.Lookup.{content-wrap}
use solana_cpp_sdk.Json.Print.{Tree, nothing, flag, digits, quoted, listing, mapping, Items}
use solana_cpp_sdk.Json.Print.{no_items, item, print, print_items, print_more}
use solana_cpp_sdk.Json.Print.{flag_text, wrap, view, type_of, bool_of}
use solana_cpp_sdk.Json.Print.{IsWritten, AreWritten, Ends, view_at, count_items}

pub more-Ends : (items : Items) → Ends (print_more items)
unfolding print_more Ends is_space
more-Ends no_items = tt
more-Ends (item j more) = refl

skip_comma-more : (items : Items) → skip_comma (print_more items) ≡ print_items items
unfolding print_more print_items skip_comma skip_whitespace is_space skip_char
skip_comma-more no_items = refl
skip_comma-more (item j more) = refl

find_at-nil : (index : ℕ) → find_at index [] ≡ null_value
unfolding find_at parse_value skip_whitespace skip_comma skip_char
find_at-nil zero = refl
find_at-nil (suc index) = find_at-nil index

find_at-print :
    (items : Items) (index : ℕ)
    → AreWritten items
    → find_at index (print_items items) ≡ view_at items index
unfolding find_at print_items view_at AreWritten
find_at-print no_items index h = find_at-nil index
find_at-print (item j more) zero h =
    ap (λ v. v.0) (parse_value-print j (print_more more) h.0 (more-Ends more))
find_at-print (item j more) (suc index) h =
    rw (parse_value-print j (print_more more) h.0 (more-Ends more), skip_comma-more more)
      (find_at-print more index h.1)

print-starts :
    (j : Tree) → IsWritten j → (c : ℕ) × (s : List ℕ) × ((print j ≡ c ∷ s) × (is_space c ≡ false))
unfolding print wrap flag_text is_space is_digit IsWritten
print-starts nothing h = (_, _, (refl, refl))
print-starts (flag true) h = (_, _, (refl, refl))
print-starts (flag false) h = (_, _, (refl, refl))
print-starts (digits d ds) h = (d, ds, (refl, ground arith))
print-starts (quoted s) h = (_, _, (refl, refl))
print-starts (listing items) h = (_, _, (refl, refl))
print-starts (mapping fields) h = (_, _, (refl, refl))

count_values-nil : (fuel count : ℕ) → count_values (suc fuel) [] count ≡ some (count + 0)
unfolding count_values skip_whitespace
count_values-nil fuel count = ap some (omega arith)

-- One round of the count, at a text that starts with no space.
pub count_values-round :
    (fuel c : ℕ) (s rest : List ℕ) (count : ℕ) (v : JsonValue)
    → is_space c ≡ false
    → parse_value (c ∷ s) ≡ (v, rest)
    → count_values (suc fuel) (c ∷ s) count ≡ count_values fuel (skip_comma rest) (count + 1)
unfolding count_values
count_values-round fuel c s rest count v n e =
    rw (count_values, skip_whitespace-no_space c s n, e) refl

count_values-item :
    (j : Tree) (fuel : ℕ) (rest : List ℕ) (count : ℕ)
    → IsWritten j
    → Ends rest
    → count_values (suc fuel) (print j ++ rest) count
      ≡ count_values fuel (skip_comma rest) (count + 1)
count_values-item j fuel rest count h e =
    let (c, s, (q, n)) = print-starts j h in
    let read = ap (λ t. parse_value (t ++ rest)) (sym q) ∙ parse_value-print j rest h e in
    ap (λ t. count_values (suc fuel) (t ++ rest) count) q
    ∙ count_values-round fuel c (s ++ rest) rest count (view j rest) n read

items-le : (items : Items) → length (print_items items) ≤ length (print_more items)
unfolding print_items print_more
items-le no_items = omega arith
items-le (item j more) = omega arith

fewer :
    (j : Tree) (more : Items) (fuel : ℕ)
    → IsWritten j
    → length (print_items (item j more)) < suc fuel
    → length (print_items more) < fuel
unfolding print_items
fewer j more fuel h n =
    let (c, s, (q, k)) = print-starts j h in
    let long : length (print j) ≡ suc (length s) = ap length q in
    omega (arith, n, length-append (print j) (print_more more), items-le more, long)

count_values-print :
    (items : Items) (fuel count : ℕ)
    → AreWritten items
    → length (print_items items) < fuel
    → count_values fuel (print_items items) count ≡ some (count + count_items items)
unfolding print_items count_items AreWritten
count_values-print items zero count h n = absurd (omega arith)
count_values-print no_items (suc fuel) count h n = count_values-nil fuel count
count_values-print (item j more) (suc fuel) count h n =
    let next = count_values-print more fuel (count + 1) h.1 (fewer j more fuel h.0 n) in
    count_values-item j fuel (print_more more) count h.0 (more-Ends more)
    ∙ (ap (λ t. count_values fuel t (count + 1)) (skip_comma-more more)
        ∙ (next ∙ ap some (omega arith)))

pub index_at-view :
    (items : Items) (index : ℕ) (rest : List ℕ)
    → AreWritten items
    → index_at (view (listing items) rest) index ≡ view_at items index
unfolding index_at view print type_of bool_of is_array value_of
index_at-view items index rest h =
    rw (content-wrap JsonType.array 91 93 (print_items items) rest false)
      (find_at-print items index h)

pub array_size-view :
    (items : Items) (rest : List ℕ)
    → AreWritten items
    → array_size (view (listing items) rest) ≡ some (count_items items)
unfolding array_size view print type_of bool_of is_array value_of
array_size-view items rest h =
    rw (content-wrap JsonType.array 91 93 (print_items items) rest false) (
      count_values-print items (suc (length (print_items items))) 0 h (omega arith)
      ∙ ap some (omega arith))
