-- ===== src/Json/Access.antt =====
-- src/solana/json.cpp: the accessors of a value. A loop over the text of a container gives `none`
-- when the fuel is used up.
use solana_cpp_sdk.Base.{
  ℕ, zero, suc, ◌+◌, ◌-◌, ◌*◌, ◌%◌, ◌^◌, List, [], ◌∷◌, Bool, true, false, ◌&&◌,
}
use solana_cpp_sdk.Base.{Option, none, some, length, take, drop, ltb, ◌==◌, if◌then◌else◌, bytes_eq}
use solana_cpp_sdk.Base.{Result, ok, ◌>>◌, throw_if, length_error, not, ◌||◌}
use solana_cpp_sdk.Json.{JsonType, JsonValue, null_value, skip_whitespace, skip_char, scan_string}
use solana_cpp_sdk.Json.{is_digit, parse_value}

-- `isNull`, `isNumber`, `isString`, `isArray` and `isObject`.
unfoldable pub is_null : JsonValue → Bool
is_null v = elim v.type [ JsonType.null ↦ true | _ ↦ false ]

unfoldable pub is_number : JsonValue → Bool
is_number v = elim v.type [ JsonType.number ↦ true | _ ↦ false ]

unfoldable pub is_string : JsonValue → Bool
is_string v = elim v.type [ JsonType.string ↦ true | _ ↦ false ]

unfoldable pub is_array : JsonValue → Bool
is_array v = elim v.type [ JsonType.array ↦ true | _ ↦ false ]

unfoldable pub is_object : JsonValue → Bool
is_object v = elim v.type [ JsonType.object ↦ true | _ ↦ false ]

-- `strtoull` in base 10, on a text that starts with a digit or a minus: digits up to the first
-- other byte, `ULLONG_MAX` when they overflow, and the negation modulo 2 ^ 64 behind a minus.
unfoldable pub digits_value : List ℕ → ℕ → ℕ
digits_value [] acc = acc
digits_value (c ∷ s) acc =
    let rest = digits_value s (acc * 10 + (c - 48)) in if is_digit c then rest else acc

unfoldable pub strtoull : List ℕ → ℕ
strtoull [] = 0
strtoull (c ∷ s) =
    let n = if c == 45 then digits_value s 0 else digits_value (c ∷ s) 0 in
    if not (ltb n (2 ^ 64)) then 2 ^ 64 - 1 else if c == 45 then (2 ^ 64 - n) % 2 ^ 64 else n

unfoldable pub as_uint : JsonValue → ℕ
as_uint v = if not (is_number v) || not v.has_src then 0 else strtoull v.text

-- What the `switch` of `asString` adds for the byte behind a backslash.
unfoldable pub unescape_char : ℕ → ℕ
unescape_char c = if c == 110 then 10 else if c == 114 then 13 else if c == 116 then 9 else c

unfoldable pub unescape : List ℕ → List ℕ
unescape [] = []
unescape (c ∷ []) = c ∷ []
unescape (c ∷ d ∷ s) = elim (c == 92) [
  | true ↦ unescape_char d ∷ unescape s
  | false ↦ c ∷ unescape (d ∷ s)
]

-- The bytes between `_start + 1` and `_end - 1`.
unfoldable pub content : JsonValue → List ℕ
content v = take (v.size - 2) (drop 1 v.text)

-- On a lone quote `end - pos` wraps around, and `reserve` throws.
unfoldable pub as_string : JsonValue → Result (List ℕ)
as_string v =
    if not (is_string v) || not v.has_src
    then ok []
    else throw_if (ltb v.size 2) length_error >> ok (unescape (content v))

-- The quote that a key starts with, skipped.
unfoldable pub skip_quote : List ℕ → Option (List ℕ)
skip_quote [] = none
skip_quote (c ∷ s) = if c == 34 then some s else none

-- The value that follows a key, from its closing quote on.
unfoldable pub entry_value : List ℕ → JsonValue × List ℕ
entry_value rest = parse_value (skip_char 58 (skip_whitespace (drop 1 rest)))

unfoldable pub skip_comma : List ℕ → List ℕ
skip_comma s = skip_char 44 (skip_whitespace s)

-- The loop of `operator[](const char *)`. A key whose scan ran one past `end` ends in a backslash,
-- and `key` has none.
unfoldable pub find_key : ℕ → List ℕ → List ℕ → Option JsonValue
find_key zero key s = none
find_key (suc fuel) key s = elim (skip_quote (skip_whitespace s)) [
  | none ↦ some null_value
  | some s' ↦
      let (count, rest) = scan_string s' in
      let (val, behind) = entry_value rest in
      let later = find_key fuel key (skip_comma behind) in
      if (count == length key) && bytes_eq (take count s') key then some val else later
]

unfoldable pub or_null : Option JsonValue → JsonValue
or_null none = null_value
or_null (some v) = v

-- `operator[](const char *)`
unfoldable pub index_key : JsonValue → List ℕ → JsonValue
index_key v key =
    if not (is_object v) || not v.has_src
    then null_value
    else or_null (find_key (suc (length (content v))) key (content v))

unfoldable pub has_key : JsonValue → List ℕ → Bool
has_key v key = let val = index_key v key in not (is_null val) || val.has_src

-- The loop of `operator[](size_t)`; `index` counts down to 0.
unfoldable pub find_at : ℕ → List ℕ → JsonValue
find_at zero s = (parse_value s).0
find_at (suc index) s = find_at index (skip_comma (parse_value s).1)

unfoldable pub index_at : JsonValue → ℕ → JsonValue
index_at v index =
    if not (is_array v) || not v.has_src then null_value else find_at index (content v)

unfoldable pub count_values : ℕ → List ℕ → ℕ → Option ℕ
count_values zero s count = none
count_values (suc fuel) s count = elim (skip_whitespace s) [
  | [] ↦ some count
  | c ∷ s' ↦ count_values fuel (skip_comma (parse_value (c ∷ s')).1) (count + 1)
]

-- A round that moves `pos` shortens the text, and a round that does not is repeated for ever: `none`
-- means that the loop does not end.
unfoldable pub array_size : JsonValue → Option ℕ
array_size v =
    if not (is_array v) || not v.has_src
    then some 0
    else count_values (suc (length (content v))) (content v) 0
