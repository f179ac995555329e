-- ===== src/Json.antt =====
-- src/solana/json.cpp: JSON values as views of a text. A position `pos` below `len` is modelled by
-- the bytes from `pos` to `len`, and any other position by no bytes. A value keeps the bytes from
-- its start to the `len` that it was parsed with. `strtoull` would read on behind them, but there
-- stands the bracket that closes a container or the NUL of the text, where it stops.
use solana_cpp_sdk.Base.{
  ℕ, zero, suc, ◌+◌, ◌-◌, ◌*◌, ◌%◌, ◌^◌, List, [], ◌∷◌, Bool, true, false, not, ◌&&◌,
}
use solana_cpp_sdk.Base.{
  ◌||◌, Option, none, some, length, take, drop, ltb, leb, ◌==◌, if◌then◌else◌, bytes_eq,
}
use solana_cpp_sdk.Base.{codes, Result, ok, err, ◌>>◌, throw_if, length_error}
pub mod Access
pub mod Print
pub mod Brackets
pub mod Passing
pub mod PassingTrees
pub mod Reading
pub mod Lookup
pub mod Arrays
pub mod Leaves
pub mod Progress
pub mod Endless
pub mod Written
pub mod Numbers

pub data JsonType : Type 0 where
  null bool number string array object : JsonType

-- `has_src` is `_src != nullptr`, and `size` is `_end - _start`.
pub record JsonValue : Type 0 where
  pub type : JsonType
  pub has_src : Bool
  pub text : List ℕ
  pub size : ℕ
  pub bool_val : Bool

-- `JsonValue()`
unfoldable pub null_value : JsonValue
null_value = record { type = null; has_src = false; text = []; size = 0; bool_val = false }

unfoldable pub is_space : ℕ → Bool
is_space c = c == 32 || (c == 9 || (c == 10 || c == 13))

unfoldable pub skip_whitespace : List ℕ → List ℕ
skip_whitespace [] = []
skip_whitespace (c ∷ s) = let rest = skip_whitespace s in if is_space c then rest else c ∷ s

-- `if (pos < end && src[pos] == c) ++pos;`
unfoldable pub skip_char : ℕ → List ℕ → List ℕ
skip_char c [] = []
skip_char c (d ∷ s) = if d == c then s else d ∷ s

-- `inString` and `depth` after one byte.
unfoldable pub next_in_string : Bool → ℕ → ℕ → Bool
next_in_string in_string prev c = if c == 34 && not (prev == 92) then not in_string else in_string

unfoldable pub next_depth : ℕ → ℕ → Bool → ℕ → ℕ → ℕ
next_depth open_char close_char in_string depth c =
    if in_string
    then depth
    else if c == open_char
    then depth + 1
    else if c == close_char
    then depth - 1
    else depth

-- The number of bytes up to the matching bracket; `prev` is `src[pos - 1]`. The callers start
-- behind a bracket, so `pos` is not 0 and `depth` is 1.
unfoldable pub find_matching_brace : ℕ → ℕ → ℕ → Bool → ℕ → List ℕ → ℕ
find_matching_brace open_char close_char depth in_string prev [] = 0
find_matching_brace open_char close_char depth in_string prev (c ∷ s) =
    let in_string' = next_in_string in_string prev c in
    let depth' = next_depth open_char close_char in_string' depth c in
    let rest = suc (find_matching_brace open_char close_char depth' in_string' c s) in
    if depth' == 0 then 0 else rest

abbrev pub advance : ℕ → ℕ × List ℕ → ℕ × List ℕ
advance n (count, rest) = (n + count, rest)

-- `while (pos < len && src[pos] != '"') { if (src[pos] == '\\') ++pos; ++pos; }`: by how much `pos`
-- grows, and the bytes from it on. It can run one past `len`.
unfoldable pub scan_string : List ℕ → ℕ × List ℕ
scan_string [] = (0, [])
scan_string (c ∷ []) = if c == 34 then (0, c ∷ []) else if c == 92 then (2, []) else (1, [])
scan_string (c ∷ d ∷ s) = if c == 34 then (0, c ∷ d ∷ s) else elim (c == 92) [
  | true ↦ advance 2 (scan_string s)
  | false ↦ advance 1 (scan_string (d ∷ s))
]

unfoldable pub is_digit : ℕ → Bool
is_digit c = leb 48 c && leb c 57

unfoldable pub skip_digits : List ℕ → List ℕ
skip_digits [] = []
skip_digits (c ∷ s) = let rest = skip_digits s in if is_digit c then rest else c ∷ s

unfoldable pub skip_fraction : List ℕ → List ℕ
skip_fraction [] = []
skip_fraction (c ∷ s) = if c == 46 then skip_digits s else c ∷ s

unfoldable pub skip_sign : List ℕ → List ℕ
skip_sign [] = []
skip_sign (c ∷ s) = if c == 43 || c == 45 then s else c ∷ s

unfoldable pub skip_exponent : List ℕ → List ℕ
skip_exponent [] = []
skip_exponent (c ∷ s) = if c == 101 || c == 69 then skip_digits (skip_sign s) else c ∷ s

unfoldable pub skip_number : List ℕ → List ℕ
skip_number s = skip_exponent (skip_fraction (skip_digits (skip_char 45 s)))

unfoldable pub value_of : JsonType → List ℕ → ℕ → Bool → JsonValue
value_of type text size bool_val = record {
  type = type;
  has_src = true;
  text = text;
  size = size;
  bool_val = bool_val;
}

-- `s` stands behind the opening quote; `count` and `rest` are what `scan_string` gives.
unfoldable pub string_value : List ℕ → ℕ → List ℕ → JsonValue × List ℕ
string_value s count [] = (value_of string (34 ∷ s) (1 + count) false, [])
string_value s count (q ∷ rest) = (value_of string (34 ∷ s) (1 + count + 1) false, rest)

unfoldable pub parse_string : List ℕ → JsonValue × List ℕ
parse_string s = let (count, rest) = scan_string s in string_value s count rest

-- `s` stands behind the opening bracket.
unfoldable pub parse_container : JsonType → ℕ → ℕ → List ℕ → JsonValue × List ℕ
parse_container type open_char close_char s =
    let count = find_matching_brace open_char close_char 1 false open_char s in
    (value_of type (open_char ∷ s) (1 + count + 1) false, drop (count + 1) s)

unfoldable pub parse_number : List ℕ → JsonValue × List ℕ
parse_number s =
    let rest = skip_number s in (value_of number s (length s - length rest) false, rest)

-- `pos + 3 < len && strncmp(src + pos, "true", 4) == 0`, and its like.
unfoldable pub has_word : List ℕ → List ℕ → Bool
has_word word s = bytes_eq (take (length word) s) word

unfoldable pub parse_word : JsonType → Bool → ℕ → List ℕ → JsonValue × List ℕ
parse_word type bool_val n s = (value_of type s n bool_val, drop n s)

-- `parseValue` from its first byte that is no space, `c`, on.
unfoldable pub parse_at : ℕ → List ℕ → JsonValue × List ℕ
parse_at c s =
    if c == 34
    then parse_string s
    else if c == 123
    then parse_container object 123 125 s
    else if c == 91
    then parse_container array 91 93 s
    else if has_word (codes "true") (c ∷ s)
    then parse_word bool true 4 (c ∷ s)
    else if has_word (codes "false") (c ∷ s)
    then parse_word bool false 5 (c ∷ s)
    else if has_word (codes "null") (c ∷ s)
    then parse_word null false 4 (c ∷ s)
    else if c == 45 || is_digit c
    then parse_number (c ∷ s)
    else (value_of null (c ∷ s) 0 false, c ∷ s)

-- The value, and the bytes from the new `pos` on.
unfoldable pub parse_value : List ℕ → JsonValue × List ℕ
parse_value r = elim (skip_whitespace r) [ [] ↦ (null_value, []) | c ∷ s ↦ parse_at c s ]

unfoldable pub parse : List ℕ → JsonValue
parse json = (parse_value json).0
