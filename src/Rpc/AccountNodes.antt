-- ===== src/Rpc/AccountNodes.antt =====
-- src/solana/rpc_client.cpp: the accounts that the client reads from a response.
use solana_cpp_sdk.Base.{ℕ, suc, ◌^◌, ◌<◌, List, [], ◌∷◌, Bool, true, false, ◌≡◌, refl, ap, ◌∙◌}
use solana_cpp_sdk.Base.{some, codes, ok, All, IsByte, leb, arith}
use solana_cpp_sdk.Base64.{Compiler, IsWrapping, base64_encode, base64_decode}
use solana_cpp_sdk.Base64.Laws.{base64_decode-encode}
use solana_cpp_sdk.Json.{JsonValue, value_of}
use solana_cpp_sdk.Json.Access.{index_at, as_string, is_null, is_array, array_size}
use solana_cpp_sdk.Json.Arrays.{index_at-view, array_size-view}
use solana_cpp_sdk.Json.Leaves.{find_tree, decimal, as_string-view}
use solana_cpp_sdk.Json.Print.{
  Tree, nothing, flag, digits, quoted, listing, mapping, Entries, Items, item,
}
use solana_cpp_sdk.Json.Print.{
  print, view, AreKept, IsWritten, AreWritten, view_at, count_items, type_of, bool_of, print_more,
}
use solana_cpp_sdk.PublicKey.{PublicKey, to_base58}
use solana_cpp_sdk.Rpc.{RpcClient}
use solana_cpp_sdk.Rpc.Http.{Network, rpc_post}
use solana_cpp_sdk.Rpc.Methods.{
  AccountInfo, no_account, array_size_of, account_payload, parse_account_info_node,
}
use solana_cpp_sdk.Rpc.Methods.{get_account_info}
use solana_cpp_sdk.Rpc.Requests.{account_info_body}
use solana_cpp_sdk.Rpc.Responses.{Shows, Shows-index_key, Shows-result_value, as_uint-Shows}

abbrev pub account : ℕ → List ℕ → List ℕ → Bool → ℕ → AccountInfo
account lamports owner payload executable rent_epoch = record {
  lamports = lamports;
  owner = owner;
  payload = payload;
  executable = executable;
  rent_epoch = rent_epoch;
  exists = true;
}

-- How a node writes an account: null, or an object with these five entries, in any order and with
-- others around them. The bytes of the account are in base 64, the first of an array.
pub data IsAccount : Tree → AccountInfo → Type 0 where
  absent : IsAccount nothing no_account
  present :
      (fields : Entries) (more : Items) (l r : ℕ) (ls rs owner bytes : List ℕ) (b : Bool)
      → find_tree (codes "lamports") fields ≡ some (digits l ls)
      → find_tree (codes "owner") fields ≡ some (quoted owner)
      → find_tree (codes "executable") fields ≡ some (flag b)
      → find_tree (codes "rentEpoch") fields ≡ some (digits r rs)
      → find_tree (codes "data") fields ≡ some (listing (item (quoted (base64_encode bytes)) more))
      → All IsByte bytes
      → decimal (l ∷ ls) 0 < 2 ^ 64
      → decimal (r ∷ rs) 0 < 2 ^ 64
      → IsAccount (mapping fields) (account (decimal (l ∷ ls) 0) owner bytes b (decimal (r ∷ rs) 0))

pub as_string-Shows : (v : JsonValue) (s : List ℕ) → Shows v (quoted s) → as_string v ≡ ok s
as_string-Shows v s (w, (rest, (e, q))) = ap as_string q ∙ as_string-view s rest

bool_val-Shows : (v : JsonValue) (b : Bool) → Shows v (flag b) → v.bool_val ≡ b
unfolding view bool_of value_of
bool_val-Shows v b (w, (rest, (e, q))) = ap (λ u. u.bool_val) q

pub written : (items : Items) → IsWritten (listing items) → AreWritten items
unfolding IsWritten
written items w = w

is_null-view : (v : JsonValue) (j : Tree) → Shows v j → is_null v ≡ is_null (view j [])
unfolding is_null view value_of
is_null-view v j (w, (rest, (e, q))) = ap is_null q

pub is_array-view : (items : Items) (rest : List ℕ) → is_array (view (listing items) rest) ≡ true
unfolding is_array view value_of type_of
is_array-view items rest = refl

pub array_size_of-some : (v : JsonValue) (n : ℕ) → array_size v ≡ some n → array_size_of v ≡ ok n
unfolding array_size_of
array_size_of-some v n e = rw (array_size_of, e) refl

account_payload-view :
    (compiler : Compiler) (text : List ℕ) (more : Items) (rest : List ℕ)
    → IsWritten (listing (item (quoted text) more))
    → account_payload compiler (view (listing (item (quoted text) more)) rest)
      ≡ base64_decode compiler text
unfolding account_payload count_items view_at
account_payload-view compiler text more rest w =
    let items = item (quoted text) more in
    let v = view (listing items) rest in
    let size : array_size_of v ≡ ok (suc (count_items more)) =
      array_size_of-some v (suc (count_items more))
        (array_size-view items rest (written items w)) in
    let some_items : leb 1 (suc (count_items more)) ≡ true = ground arith in
    let first : index_at v 0 ≡ view (quoted text) (print_more more) =
      index_at-view items 0 rest (written items w) in
    rw (is_array-view items rest, size, some_items, first, as_string-view text (print_more more))
      refl

account_payload-Shows :
    (compiler : Compiler) (v : JsonValue) (text : List ℕ) (more : Items)
    → Shows v (listing (item (quoted text) more))
    → account_payload compiler v ≡ base64_decode compiler text
account_payload-Shows compiler v text more (w, (rest, (e, q))) =
    ap (account_payload compiler) q ∙ account_payload-view compiler text more rest w

null_node : (v : JsonValue) → Shows v nothing → is_null v ≡ true
unfolding is_null view value_of type_of
null_node v s = is_null-view v nothing s

full_node : (v : JsonValue) (fields : Entries) → Shows v (mapping fields) → is_null v ≡ false
unfolding is_null view value_of type_of
full_node v fields s = is_null-view v (mapping fields) s

pub parse_account_info_node-Shows :
    (compiler : Compiler) (v : JsonValue) (j : Tree) (info : AccountInfo)
    → IsWrapping compiler
    → Shows v j
    → IsAccount j info
    → parse_account_info_node compiler v ≡ ok info
unfolding parse_account_info_node
parse_account_info_node-Shows compiler v j info wraps s absent = rw (null_node v s) refl
parse_account_info_node-Shows compiler v j info wraps s
      (present fields more l r ls rs owner bytes b f1 f2 f3 f4 f5 all n1 n2) =
    let lamports = as_uint-Shows _ l ls (Shows-index_key v fields (codes "lamports") _ s f1) n1 in
    let named = as_string-Shows _ owner (Shows-index_key v fields (codes "owner") _ s f2) in
    let runs = bool_val-Shows _ b (Shows-index_key v fields (codes "executable") _ s f3) in
    let epoch = as_uint-Shows _ r rs (Shows-index_key v fields (codes "rentEpoch") _ s f4) n2 in
    let stored =
      account_payload-Shows compiler _ (base64_encode bytes) more
        (Shows-index_key v fields (codes "data") _ s f5) in
    let bytes_read = base64_decode-encode compiler wraps bytes all in
    rw (full_node v fields s, named, stored, bytes_read, lamports, runs, epoch) refl

-- Compiled so that signed shifts wrap: where the key has a base58 text and the request is answered
-- with the compact text of a JSON document that is written as the parser expects and has, under result and value, null or an
-- account with its five entries and its bytes in base64, numbers below 2 ^ 64, getAccountInfo
-- returns that account.
pub get_account_info-print :
    (compiler : Compiler) (network : Network) (client : RpcClient) (pubkey : PublicKey)
    (key : List ℕ) (fields inner : Entries) (j : Tree) (info : AccountInfo)
    → IsWrapping compiler
    → to_base58 pubkey ≡ ok key
    → rpc_post network client (account_info_body key) ≡ ok (print (mapping fields))
    → AreKept fields
    → find_tree (codes "result") fields ≡ some (mapping inner)
    → find_tree (codes "value") inner ≡ some j
    → IsAccount j info
    → get_account_info compiler network client pubkey ≡ ok info
unfolding get_account_info
get_account_info-print compiler network client pubkey key fields inner j info wraps b p h f g a =
    rw (b, p)
      (parse_account_info_node-Shows compiler _ j info wraps
        (Shows-result_value fields inner j h f g) a)
