-- ===== src/Rpc/Responses.antt =====
-- src/solana/rpc_client.cpp: what the methods read from a response that is the text of a tree.
use solana_cpp_sdk.Base.{ℕ, ◌^◌, ◌<◌, List, [], ◌∷◌, ◌≡◌, refl, sym, ap, ◌∙◌, append-nil}
use solana_cpp_sdk.Base.{some, codes, ok}
use solana_cpp_sdk.Json.{JsonValue, parse}
use solana_cpp_sdk.Json.Access.{index_key, as_uint}
use solana_cpp_sdk.Json.Leaves.{find_tree, view_of_key-find_tree, decimal, as_uint-view}
use solana_cpp_sdk.Json.Lookup.{index_key-view}
use solana_cpp_sdk.Json.Print.{
  Tree, digits, mapping, Entries, print, view, AreKept, IsWritten, Ends,
}
use solana_cpp_sdk.Json.Reading.{parse_value-print}
use solana_cpp_sdk.PublicKey.{PublicKey, to_base58}
use solana_cpp_sdk.Rpc.{RpcClient}
use solana_cpp_sdk.Rpc.Http.{Network, rpc_post}
use solana_cpp_sdk.Rpc.Methods.{result_value, get_balance}
use solana_cpp_sdk.Rpc.Requests.{balance_body}

pub parse-print :
    (fields : Entries) → AreKept fields → parse (print (mapping fields)) ≡ view (mapping fields) []
unfolding parse IsWritten Ends
parse-print fields h =
    let text = sym (append-nil (print (mapping fields))) in
    ap parse text ∙ ap (λ p. p.0) (parse_value-print (mapping fields) [] h tt)

-- A value stands for a tree.
abbrev pub Shows : JsonValue → Tree → Type 0
Shows v j = IsWritten j × ((rest : List ℕ) × (Ends rest × (v ≡ view j rest)))

pub Shows-index_key :
    (v : JsonValue) (fields : Entries) (name : List ℕ) (j : Tree)
    → Shows v (mapping fields)
    → find_tree name fields ≡ some j
    → Shows (index_key v name) j
unfolding IsWritten
Shows-index_key v fields name j (h, (rest, (e, q))) f =
    let (w, (rest', (e', q'))) = view_of_key-find_tree name fields j h f in
    (w, (rest', (e', ap (λ u. index_key u name) q ∙ (index_key-view fields name rest h ∙ q'))))

pub Shows-parse :
    (fields : Entries) → AreKept fields → Shows (parse (print (mapping fields))) (mapping fields)
unfolding IsWritten Ends
Shows-parse fields h = (h, ([], (tt, parse-print fields h)))

pub Shows-result_value :
    (fields inner : Entries) (j : Tree)
    → AreKept fields
    → find_tree (codes "result") fields ≡ some (mapping inner)
    → find_tree (codes "value") inner ≡ some j
    → Shows (result_value (parse (print (mapping fields)))) j
unfolding result_value
Shows-result_value fields inner j h f g =
    let root = Shows-parse fields h in
    let result = Shows-index_key _ fields (codes "result") (mapping inner) root f in
    Shows-index_key _ inner (codes "value") j result g

pub as_uint-Shows :
    (v : JsonValue) (d : ℕ) (ds : List ℕ)
    → Shows v (digits d ds)
    → decimal (d ∷ ds) 0 < 2 ^ 64
    → as_uint v ≡ decimal (d ∷ ds) 0
as_uint-Shows v d ds (w, (rest, (e, q))) small = ap as_uint q ∙ as_uint-view d ds rest w e small

get_balance-print :
    (network : Network) (client : RpcClient) (pubkey : PublicKey) (key : List ℕ)
    (fields inner : Entries) (d : ℕ) (ds : List ℕ)
    → to_base58 pubkey ≡ ok key
    → rpc_post network client (balance_body key) ≡ ok (print (mapping fields))
    → AreKept fields
    → find_tree (codes "result") fields ≡ some (mapping inner)
    → find_tree (codes "value") inner ≡ some (digits d ds)
    → decimal (d ∷ ds) 0 < 2 ^ 64
    → get_balance network client pubkey ≡ ok (decimal (d ∷ ds) 0)
unfolding get_balance
get_balance-print network client pubkey key fields inner d ds b p h f g small =
    let value = Shows-result_value fields inner (digits d ds) h f g in
    rw (b, p, as_uint-Shows _ d ds value small) refl
