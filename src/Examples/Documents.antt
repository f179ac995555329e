-- ===== src/Examples/Documents.antt =====
-- The JSON parser at small texts.
use solana_cpp_sdk.Base.{ok, err, length_error, none}
use solana_cpp_sdk.Json.{
  parse, parse_value, parse_at, skip_whitespace, parse_string, scan_string, string_value, value_of,
  parse_container, find_matching_brace, next_in_string, next_depth, skip_char, has_word,
}
use solana_cpp_sdk.Json.Access.{
  as_string, is_string, array_size, is_array, content, skip_comma, unescape, unescape_char,
}
use solana_cpp_sdk.Base.{[], ◌∷◌, ◌++◌, true, ◌≡◌, refl, arith, codes, length, suc, some, none}
use solana_cpp_sdk.Json.{parse_value}
use solana_cpp_sdk.Json.Access.{or_null, find_key, count_values}
use solana_cpp_sdk.Json.Endless.{count_values-unknown, starts_value}
use solana_cpp_sdk.Json.Print.{nothing, digits, quoted, listing, mapping, Entries, item, no_items}
use solana_cpp_sdk.Json.Print.{entry, no_entries, print, view, Ends}
use solana_cpp_sdk.Json.Progress.{find_key-or_null}
use solana_cpp_sdk.Json.Reading.{parse_value-print}
use solana_cpp_sdk.Json.Written.{is_written, are_kept, is_key, are_digits, is_written-IsWritten}
use solana_cpp_sdk.Json.{is_digit, is_space}
use solana_cpp_sdk.Json.Print.{last_or}

-- {"a":[7,{"b":"x\"\n}"}],"c":null}
abbrev document : Entries
document =
    entry (codes "a")
      (listing (
        item (digits 55 []) (
          item (mapping (entry (codes "b") (quoted (120 ∷ 34 ∷ 10 ∷ 125 ∷ [])) no_entries))
            no_items)))
      (entry (codes "c") nothing no_entries)

document_kept : are_kept document ≡ true
unfolding are_kept is_key are_digits is_digit last_or
document_kept = refl

parse_value-print_example :
    parse_value (print (mapping document) ++ (44 ∷ 49 ∷ []))
    ≡ (view (mapping document) (44 ∷ 49 ∷ []), 44 ∷ 49 ∷ [])
unfolding is_written Ends is_space
parse_value-print_example =
    parse_value-print (mapping document) (44 ∷ 49 ∷ [])
      (is_written-IsWritten (mapping document) document_kept) refl

-- An object whose second key has no quote.
find_key-or_null_example :
    find_key 20 (codes "b") (codes "\"a\":1,b:2")
    ≡ some
        (or_null (find_key (suc (length (codes "\"a\":1,b:2"))) (codes "b") (codes "\"a\":1,b:2")))
find_key-or_null_example = find_key-or_null 20 (codes "b") (codes "\"a\":1,b:2") (omega arith)

count_values-unknown_example : count_values 1000 (codes "x") 0 ≡ none
unfolding is_space starts_value is_digit
count_values-unknown_example = count_values-unknown 1000 120 [] 0 refl (λ e. omega arith) refl

-- A value that is a lone quote.
lone_quote : as_string (parse (codes "\"")) ≡ err length_error
unfolding parse parse_value parse_at skip_whitespace is_space parse_string scan_string string_value
    value_of as_string is_string
lone_quote = refl

-- `["a\\"],1`: the string ends in an escaped backslash, and the array has no end.
missed_end : (parse_value (codes "[\"a\\\\\"],1")).1 ≡ []
unfolding parse_value parse_at skip_whitespace is_space parse_container find_matching_brace
    next_in_string next_depth value_of
missed_end = refl

-- `[x]`
endless : array_size (parse (codes "[x]")) ≡ none
unfolding parse parse_value parse_at skip_whitespace is_space parse_container find_matching_brace
    next_in_string next_depth value_of array_size is_array content count_values skip_comma skip_char
    has_word is_digit
endless = refl

-- The escapes of a form feed and of a tab.
form_feed : as_string (parse (codes "\"\\f\\t\"")) ≡ ok (102 ∷ 9 ∷ [])
unfolding parse parse_value parse_at skip_whitespace is_space parse_string scan_string string_value
    value_of as_string is_string content unescape unescape_char
form_feed = refl
