-- ===== src/Json/Print.antt =====
-- JSON documents as trees, and their compact text: no space between tokens, a number as digits. The
-- code of src/solana/json.cpp is compared with these.
use solana_cpp_sdk.Base.{ℕ, zero, suc, List, [], ◌∷◌, ◌++◌, Bool, true, false, ◌||◌, ◌==◌, ◌≡◌, ◌≢◌}
use solana_cpp_sdk.Base.{if◌then◌else◌, length, codes, All, bytes_eq}
use solana_cpp_sdk.Json.{JsonType, JsonValue, value_of, null_value, is_digit, is_space}

mutual
  pub data Tree : Type 0 where
    nothing : Tree
    flag : Bool → Tree
    digits : ℕ → List ℕ → Tree
    quoted : List ℕ → Tree
    listing : Items → Tree
    mapping : Entries → Tree

  pub data Items : Type 0 where
    no_items : Items
    item : Tree → Items → Items

  pub data Entries : Type 0 where
    no_entries : Entries
    entry : List ℕ → Tree → Entries → Entries

unfoldable pub escape_char : ℕ → List ℕ
escape_char c =
    if c == 34
    then 92 ∷ 34 ∷ []
    else if c == 92
    then 92 ∷ 92 ∷ []
    else if c == 10
    then 92 ∷ 110 ∷ []
    else if c == 13
    then 92 ∷ 114 ∷ []
    else if c == 9
    then 92 ∷ 116 ∷ []
    else c ∷ []

unfoldable pub escape : List ℕ → List ℕ
escape [] = []
escape (c ∷ s) = escape_char c ++ escape s

unfoldable pub flag_text : Bool → List ℕ
flag_text true = codes "true"
flag_text false = codes "false"

unfoldable pub wrap : ℕ → List ℕ → ℕ → List ℕ
wrap opening inner closing = opening ∷ (inner ++ (closing ∷ []))

unfoldable mutual
  pub print : Tree → List ℕ
  print nothing = codes "null"
  print (flag b) = flag_text b
  print (digits d ds) = d ∷ ds
  print (quoted s) = wrap 34 (escape s) 34
  print (listing items) = wrap 91 (print_items items) 93
  print (mapping fields) = wrap 123 (print_entries fields) 125

  pub print_items : Items → List ℕ
  print_items no_items = []
  print_items (item j more) = print j ++ print_more more

  pub print_more : Items → List ℕ
  print_more no_items = []
  print_more (item j more) = 44 ∷ (print j ++ print_more more)

  pub print_entries : Entries → List ℕ
  print_entries no_entries = []
  print_entries (entry key j more) = wrap 34 key 34 ++ (58 ∷ (print j ++ print_others more))

  pub print_others : Entries → List ℕ
  print_others no_entries = []
  print_others (entry key j more) = 44 ∷ (wrap 34 key 34 ++ (58 ∷ (print j ++ print_others more)))

-- The last byte of a text, `c` if it is empty.
unfoldable pub last_or : ℕ → List ℕ → ℕ
last_or c [] = c
last_or c (d ∷ s) = last_or d s

unfoldable pub IsKey : List ℕ → Type 0
IsKey key = All (λ c. (c ≢ 34) × (c ≢ 92)) key

-- The trees that the parser is meant for: numbers are digits, a key has neither a quote nor a
-- backslash in it, and no string ends in a backslash.
unfoldable mutual
  pub IsWritten : Tree → Type 0
  IsWritten nothing = Unit {0}
  IsWritten (flag b) = Unit {0}
  IsWritten (digits d ds) = (is_digit d ≡ true) × All (λ c. is_digit c ≡ true) ds
  IsWritten (quoted s) = last_or 0 s ≢ 92
  IsWritten (listing items) = AreWritten items
  IsWritten (mapping fields) = AreKept fields

  pub AreWritten : Items → Type 0
  AreWritten no_items = Unit {0}
  AreWritten (item j more) = IsWritten j × AreWritten more

  pub AreKept : Entries → Type 0
  AreKept no_entries = Unit {0}
  AreKept (entry key j more) = IsKey key × IsWritten j × AreKept more

unfoldable pub type_of : Tree → JsonType
type_of nothing = JsonType.null
type_of (flag b) = JsonType.bool
type_of (digits d ds) = JsonType.number
type_of (quoted s) = JsonType.string
type_of (listing items) = JsonType.array
type_of (mapping fields) = JsonType.object

unfoldable pub bool_of : Tree → Bool
bool_of (flag b) = b
bool_of _ = false

-- The value that stands for a tree whose text is followed by `rest`.
unfoldable pub view : Tree → List ℕ → JsonValue
view j rest = value_of (type_of j) (print j ++ rest) (length (print j)) (bool_of j)

-- What may follow a value: nothing, or a space or comma.
unfoldable pub Ends : List ℕ → Type 0
Ends [] = Unit {0}
Ends (c ∷ s) = (is_space c || c == 44) ≡ true

-- The views of the entry with a key, and of the item at an index.
unfoldable pub view_of_key : List ℕ → Entries → JsonValue
view_of_key name no_entries = null_value
view_of_key name (entry key j more) =
    let later = view_of_key name more in
    if bytes_eq key name then view j (print_others more) else later

unfoldable pub view_at : Items → ℕ → JsonValue
view_at no_items index = null_value
view_at (item j more) zero = view j (print_more more)
view_at (item j more) (suc index) = view_at more index

unfoldable pub count_items : Items → ℕ
count_items no_items = 0
count_items (item j more) = suc (count_items more)
