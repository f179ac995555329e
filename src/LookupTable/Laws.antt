-- ===== src/LookupTable/Laws.antt =====
-- `AddressLookupTableAccount::parse` of src/solana/address_lookup_table.cpp, against table bytes.
use solana_cpp_sdk.Base.{ℕ, zero, suc, ◌+◌, ◌-◌, ◌*◌, ◌/◌, ◌%◌, ◌≤◌, ◌≡◌, refl, arith, ap, ◌∙◌}
use solana_cpp_sdk.Base.{
  List, [], ◌∷◌, ◌++◌, Option, none, some, true, false, length, get_or, take, drop, All,
}
use solana_cpp_sdk.Base.{
  concat_map, ok, ◌>>=◌, ltb, ◌==◌, ==_iff, if◌then◌else◌, Bool-cases, inl, inr,
}
use solana_cpp_sdk.Base.{
  length-take, length-drop, take-append, append-take-drop, drop-append, length-append, append_assoc,
  ◌⊎◌,
}
use solana_cpp_sdk.PublicKey.{PublicKey, to_bytes, from_vector}
use solana_cpp_sdk.LookupTable.{type_tag, address_start, read_addresses, parse}

abbrev pub Has32Bytes : PublicKey → Type 0
Has32Bytes k = length k.bytes ≡ 32

-- The keys that stand in the bytes, one behind the other.
abbrev Entries : List ℕ → List PublicKey → Type 0
Entries bytes ks = (concat_map to_bytes ks ≡ bytes) × All Has32Bytes ks

read_addresses_lem :
    (n : ℕ) (bytes : List ℕ)
    → length bytes ≡ 32 * n
    → (ks : List PublicKey) × (read_addresses n bytes ≡ ok ks) × Entries bytes ks
unfolding read_addresses from_vector to_bytes
read_addresses_lem zero [] h = ([], refl, (refl, tt))
read_addresses_lem zero (b ∷ bytes) h = absurd (omega arith)
read_addresses_lem (suc n) bytes h =
    let whole : length (take 32 bytes) ≡ 32 = length-take bytes 32 (omega arith) in
    let (ks, e, (joined, all)) =
      read_addresses_lem n (drop 32 bytes) (omega (arith, length-drop bytes 32 (omega arith))) in
    (
      record { bytes = take 32 bytes } ∷ ks,
      rw ((==_iff (length (take 32 bytes)) 32).1 whole, ◌>>=◌, e),
      (rw joined (append-take-drop bytes 32), (whole, all)),
    )

read_addresses-append :
    (ks : List PublicKey)
    → All Has32Bytes ks
    → (read_addresses (length ks) (concat_map to_bytes ks) ≡ ok ks)
      × (length (concat_map to_bytes ks) ≡ 32 * length ks)
unfolding read_addresses from_vector to_bytes
read_addresses-append [] h = (refl, refl)
read_addresses-append (k ∷ ks) h =
    let (e, n) = read_addresses-append ks h.1 in
    (
      rw (
        take-append k.bytes (concat_map to_bytes ks) 32 h.0,
        drop-append k.bytes (concat_map to_bytes ks) 32 h.0,
        (==_iff (length k.bytes) 32).1 h.0,
        ◌>>=◌,
        e,
      ),
      omega (arith, length-append k.bytes (concat_map to_bytes ks), n, h.0),
    )

module _ (key : PublicKey) (bytes : List ℕ) where
  -- The answer of `parse` for a table.
  abbrev pub IsParsed : List PublicKey → Type 0
  IsParsed ks =
      (parse key bytes ≡ ok (some (record { key = key; addresses = ks })))
      × ((type_tag bytes ≡ 1)
          × ((address_start bytes ≤ length bytes)
              × ((concat_map to_bytes ks ≡ drop (address_start bytes) bytes) × All Has32Bytes ks)))

  parsed :
      ltb (length bytes) 22 ≡ false
      → (type_tag bytes == 1) ≡ true
      → ltb (length bytes) (address_start bytes) ≡ false
      → ((length bytes - address_start bytes) % 32 == 0) ≡ true
      → (ks : List PublicKey) × IsParsed ks
  unfolding parse
  parsed whole tag start even =
      let fits : address_start bytes ≤ length bytes = ground arith in
      let rounds : (length bytes - address_start bytes) % 32 ≡ 0 = (==_iff _ _).0 even in
      let (ks, e, entries) =
        read_addresses_lem ((length bytes - address_start bytes) / 32)
          (drop (address_start bytes) bytes)
          (omega (arith, length-drop bytes (address_start bytes) fits)) in
      (ks, (rw (whole, tag, start, even, e, ◌>>=◌), ((==_iff _ _).0 tag, (fits, entries))))

  -- parse throws on no input: it refuses the bytes, or the type tag is 1, and the keys of the table
  -- that it gives are the bytes behind the header, cut into pieces of 32.
  pub parse_lem : (parse key bytes ≡ ok none) ⊎ ((ks : List PublicKey) × IsParsed ks)
  unfolding parse
  parse_lem = elim (Bool-cases (ltb (length bytes) 22)) [
    | inl e ↦ inl (rw e)
    | inr whole ↦ elim (Bool-cases (type_tag bytes == 1)) [
      | inr e ↦ inl (rw (whole, e))
      | inl tag ↦ elim (Bool-cases (ltb (length bytes) (address_start bytes))) [
        | inl e ↦ inl (rw (whole, tag, e))
        | inr start ↦ elim (Bool-cases ((length bytes - address_start bytes) % 32 == 0)) [
          | inr e ↦ inl (rw (whole, tag, start, e))
          | inl even ↦ inr (parsed whole tag start even)
        ]
      ]
    ]
  ]

get_or-append : (xs ys : List ℕ) (n : ℕ) → length xs ≡ n → get_or (xs ++ ys) n 0 ≡ get_or ys 0 0
get_or-append [] ys zero h = refl
get_or-append [] ys (suc n) h = absurd (omega arith)
get_or-append (x ∷ xs) ys zero h = absurd (omega arith)
get_or-append (x ∷ xs) ys (suc n) h = get_or-append xs ys n (omega arith)

-- Keys behind a header of the length that the header says.
parse_behind :
    (key : PublicKey) (header : List ℕ) (ks : List PublicKey)
    → 22 ≤ length header
    → type_tag (header ++ concat_map to_bytes ks) ≡ 1
    → address_start (header ++ concat_map to_bytes ks) ≡ length header
    → All Has32Bytes ks
    → parse key (header ++ concat_map to_bytes ks)
      ≡ ok (some (record { key = key; addresses = ks }))
unfolding parse
parse_behind key header ks long tag start h =
    let (reads, size) = read_addresses-append ks h in
    let all : length (header ++ concat_map to_bytes ks) ≡ length header + 32 * length ks =
      omega (arith, length-append header (concat_map to_bytes ks), size) in
    let a : ltb (length header + 32 * length ks) 22 ≡ false = ground arith in
    let b : ltb (length header + 32 * length ks) (length header) ≡ false = ground arith in
    let c : length header + 32 * length ks - length header ≡ 32 * length ks = omega arith in
    let d : (32 * length ks) % 32 ≡ 0 = omega arith in
    let e : (32 * length ks) / 32 ≡ length ks = omega arith in
    rw (
      all,
      a,
      tag,
      start,
      b,
      c,
      d,
      e,
      drop-append header (concat_map to_bytes ks) (length header) refl,
      reads,
      ◌>>=◌,
    )

-- An account as the runtime stores it: the type, 17 bytes of slots, and the authority.
abbrev authority_bytes : Option (List ℕ) → List ℕ
authority_bytes none = 0 ∷ []
authority_bytes (some authority) = 1 ∷ authority

abbrev pub IsAuthority : Option (List ℕ) → Type 0
IsAuthority none = Unit
IsAuthority (some authority) = length authority ≡ 32

abbrev pub table_bytes : List ℕ → Option (List ℕ) → List PublicKey → List ℕ
table_bytes slots authority ks =
    (1 ∷ 0 ∷ 0 ∷ 0 ∷ (slots ++ authority_bytes authority)) ++ concat_map to_bytes ks

-- The header's length, by its authority flag.
address_start_lem :
    (slots rest bytes : List ℕ) (flag : ℕ)
    → length slots ≡ 17
    → address_start (1 ∷ 0 ∷ 0 ∷ 0 ∷ ((slots ++ (flag ∷ rest)) ++ bytes))
      ≡ (if flag == 1 then 54 else 22)
unfolding address_start
address_start_lem slots rest bytes flag n =
    let at_flag : get_or ((slots ++ (flag ∷ rest)) ++ bytes) 17 0 ≡ flag =
      ap (λ l. get_or l 17 0) (append_assoc slots (flag ∷ rest) bytes)
      ∙ get_or-append slots (flag ∷ (rest ++ bytes)) 17 n in
    rw at_flag

-- The bytes of a lookup table with or without an authority of 32 bytes, where the slots take 17
-- bytes and each key has 32, are parsed to the table's keys.
pub parse-table_bytes :
    (key : PublicKey) (slots : List ℕ) (authority : Option (List ℕ)) (ks : List PublicKey)
    → length slots ≡ 17
    → IsAuthority authority
    → All Has32Bytes ks
    → parse key (table_bytes slots authority ks) ≡ ok (some (record { key = key; addresses = ks }))
unfolding type_tag
parse-table_bytes key slots none ks n a h =
    parse_behind key (1 ∷ 0 ∷ 0 ∷ 0 ∷ (slots ++ (0 ∷ []))) ks
      (omega (arith, length-append slots (0 ∷ []))) refl
      (address_start_lem slots [] (concat_map to_bytes ks) 0 n
        ∙ omega (arith, length-append slots (0 ∷ [])))
      h
parse-table_bytes key slots (some authority) ks n a h =
    parse_behind key (1 ∷ 0 ∷ 0 ∷ 0 ∷ (slots ++ (1 ∷ authority))) ks
      (omega (arith, length-append slots (1 ∷ authority), a)) refl
      (address_start_lem slots authority (concat_map to_bytes ks) 1 n
        ∙ omega (arith, length-append slots (1 ∷ authority), a))
      h
