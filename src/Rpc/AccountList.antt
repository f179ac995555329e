-- ===== src/Rpc/AccountList.antt =====
-- src/solana/rpc_client.cpp: the accounts that one request reads, and the lookup tables among them.
use solana_cpp_sdk.Base.{ℕ, suc, ◌+◌, List, [], ◌∷◌, Bool, ◌≡◌, refl, ap, ◌∙◌}
use solana_cpp_sdk.Base.{Option, some, codes, ok, All, length, arith}
use solana_cpp_sdk.Base64.{Compiler, IsWrapping}
use solana_cpp_sdk.Json.{JsonValue}
use solana_cpp_sdk.Json.Access.{index_at}
use solana_cpp_sdk.Json.Arrays.{index_at-view, array_size-view, more-Ends}
use solana_cpp_sdk.Json.Leaves.{find_tree}
use solana_cpp_sdk.Json.Print.{
  listing, mapping, Entries, Items, item, no_items, print, view, view_at, count_items,
}
use solana_cpp_sdk.Json.Print.{AreKept, AreWritten, print_more, Tree}
use solana_cpp_sdk.LookupTable.Laws.{table_bytes, IsAuthority, Has32Bytes, parse-table_bytes}
use solana_cpp_sdk.PublicKey.{PublicKey, to_base58}
use solana_cpp_sdk.Rpc.{RpcClient}
use solana_cpp_sdk.Rpc.AccountNodes.{
  account, get_account_info-print, IsAccount, array_size_of-some, written,
  parse_account_info_node-Shows, is_array-view,
}
use solana_cpp_sdk.Rpc.Http.{Network, rpc_post}
use solana_cpp_sdk.Rpc.Methods.{AccountInfo, parse_account_infos, read_account_infos, array_size_of}
use solana_cpp_sdk.Rpc.Methods.{get_address_lookup_table, get_multiple_accounts_info}
use solana_cpp_sdk.Rpc.Requests.{account_info_body, keys_to_base58, multiple_accounts_body}
use solana_cpp_sdk.Rpc.Responses.{Shows, Shows-result_value}

pub data AreAccounts : Items → List AccountInfo → Type 0 where
  no_more : AreAccounts no_items []
  and_more :
      (j : Tree) (items : Items) (info : AccountInfo) (infos : List AccountInfo)
      → IsAccount j info
      → AreAccounts items infos
      → AreAccounts (item j items) (info ∷ infos)

parse_account_infos-items :
    (compiler : Compiler) (v : JsonValue) (items : Items) (infos : List AccountInfo) (i : ℕ)
    → IsWrapping compiler
    → AreAccounts items infos
    → AreWritten items
    → ((k : ℕ) → index_at v (i + k) ≡ view_at items k)
    → parse_account_infos compiler (count_items items) i v ≡ ok infos
unfolding parse_account_infos count_items view_at AreWritten
parse_account_infos-items compiler v items infos i wraps no_more w h = refl
parse_account_infos-items compiler v items infos i wraps (and_more j later info more a as') w h =
    let first : index_at v i ≡ view j (print_more later) = ap (index_at v) (omega arith) ∙ h 0 in
    let node =
      parse_account_info_node-Shows compiler (index_at v i) j info wraps
        (w.0, (print_more later, (more-Ends later, first))) a in
    let next =
      parse_account_infos-items compiler v later more (i + 1) wraps as' w.1
        (λ k. ap (index_at v) (omega arith) ∙ h (suc k)) in
    rw (node, next) refl

read_account_infos-view :
    (compiler : Compiler) (items : Items) (infos : List AccountInfo) (rest : List ℕ)
    → IsWrapping compiler
    → AreAccounts items infos
    → AreWritten items
    → read_account_infos compiler (view (listing items) rest) ≡ ok infos
unfolding read_account_infos
read_account_infos-view compiler items infos rest wraps a w =
    let v = view (listing items) rest in
    let size : array_size_of v ≡ ok (count_items items) =
      array_size_of-some v (count_items items) (array_size-view items rest w) in
    let entries =
      parse_account_infos-items compiler v items infos 0 wraps a w
        (λ k. ap (index_at v) (omega arith) ∙ index_at-view items k rest w) in
    rw (is_array-view items rest, size) entries

read_account_infos-Shows :
    (compiler : Compiler) (v : JsonValue) (items : Items) (infos : List AccountInfo)
    → IsWrapping compiler
    → Shows v (listing items)
    → AreAccounts items infos
    → read_account_infos compiler v ≡ ok infos
read_account_infos-Shows compiler v items infos wraps (w, (rest, (e, q))) a =
    ap (read_account_infos compiler) q
    ∙ read_account_infos-view compiler items infos rest wraps a (written items w)

-- Compiled so that signed shifts wrap: where the keys have base58 texts and the request is answered with the compact text of a JSON
-- document that is written as the parser expects and has, under result and value, a list of
-- accounts, null or with their five entries and their bytes in base64, numbers below 2 ^ 64,
-- getMultipleAccountsInfo returns these accounts, in their order.
pub get_multiple_accounts_info-print :
    (compiler : Compiler) (network : Network) (client : RpcClient) (pubkeys : List PublicKey)
    (keys : List (List ℕ)) (fields inner : Entries) (items : Items) (infos : List AccountInfo)
    → IsWrapping compiler
    → keys_to_base58 pubkeys ≡ ok keys
    → rpc_post network client (multiple_accounts_body keys) ≡ ok (print (mapping fields))
    → AreKept fields
    → find_tree (codes "result") fields ≡ some (mapping inner)
    → find_tree (codes "value") inner ≡ some (listing items)
    → AreAccounts items infos
    → get_multiple_accounts_info compiler network client pubkeys ≡ ok infos
unfolding get_multiple_accounts_info
get_multiple_accounts_info-print compiler network client pubkeys keys fields inner items infos wraps
      b p h f g a =
    rw (b, p)
      (read_account_infos-Shows compiler _ items infos wraps
        (Shows-result_value fields inner (listing items) h f g) a)

-- Compiled so that signed shifts wrap: where the key has a base58 text and the request is answered with the compact text of a JSON
-- document that is written as the parser expects and has, under result and value, an account with
-- its five entries, numbers below 2 ^ 64, and the bytes of a lookup table in base64, with 17
-- bytes of slots, with or without an authority of 32 bytes, and with keys of 32 bytes,
-- getAddressLookupTable returns the table with its key and these keys.
pub get_address_lookup_table-print :
    (compiler : Compiler) (network : Network) (client : RpcClient) (alt_key : PublicKey)
    (key : List ℕ) (fields inner : Entries) (j : Tree) (l r : ℕ) (owner slots : List ℕ) (b : Bool)
    (authority : Option (List ℕ)) (ks : List PublicKey)
    → IsWrapping compiler
    → to_base58 alt_key ≡ ok key
    → rpc_post network client (account_info_body key) ≡ ok (print (mapping fields))
    → AreKept fields
    → find_tree (codes "result") fields ≡ some (mapping inner)
    → find_tree (codes "value") inner ≡ some j
    → IsAccount j (account l owner (table_bytes slots authority ks) b r)
    → length slots ≡ 17
    → IsAuthority authority
    → All Has32Bytes ks
    → get_address_lookup_table compiler network client alt_key
      ≡ ok (some (record { key = alt_key; addresses = ks }))
unfolding get_address_lookup_table
get_address_lookup_table-print compiler network client alt_key key fields inner j l r owner slots b
      authority ks wraps e p h f g a n m all =
    let info = account l owner (table_bytes slots authority ks) b r in
    rw
      (get_account_info-print compiler network client alt_key key fields inner j info wraps e p h f
        g a)
      (parse-table_bytes alt_key slots authority ks n m all)
