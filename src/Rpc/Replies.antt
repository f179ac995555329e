-- ===== src/Rpc/Replies.antt =====
-- src/solana/rpc_client.cpp: the signature or the message that a node answers a transaction with.
use solana_cpp_sdk.Base.{
  ℕ, List, [], ◌∷◌, true, false, ◌≡◌, ◌≢◌, refl, ap, ◌∙◌, none, some, codes, arith,
}
use solana_cpp_sdk.Base.{Result, ok, err, rpc_failed, bytes_eq, Bool-cases, inl, inr}
use solana_cpp_sdk.Json.{JsonValue, null_value, value_of}
use solana_cpp_sdk.Json.Access.{index_key, is_string}
use solana_cpp_sdk.Json.Leaves.{find_tree}
use solana_cpp_sdk.Json.Lookup.{index_key-view}
use solana_cpp_sdk.Json.Print.{
  quoted, mapping, Entries, no_entries, entry, print, view, view_of_key, AreKept, IsWritten,
  type_of,
}
use solana_cpp_sdk.Rpc.{RpcClient}
use solana_cpp_sdk.Rpc.AccountNodes.{as_string-Shows}
use solana_cpp_sdk.Rpc.Http.{Network, rpc_post}
use solana_cpp_sdk.Rpc.Methods.{read_signature, throw_message, send_transaction}
use solana_cpp_sdk.Rpc.Requests.{send_transaction_body}
use solana_cpp_sdk.Rpc.Responses.{Shows, Shows-parse, Shows-index_key}

-- What a response says: a text as its result, or, without a result, a message in its error.
pub data IsReply : Entries → Result (List ℕ) → Type 0 where
  signed :
      (fields : Entries) (signature : List ℕ)
      → find_tree (codes "result") fields ≡ some (quoted signature)
      → IsReply fields (ok signature)
  refused :
      (fields inner : Entries) (message : List ℕ)
      → find_tree (codes "result") fields ≡ none
      → find_tree (codes "error") fields ≡ some (mapping inner)
      → find_tree (codes "message") inner ≡ some (quoted message)
      → message ≢ []
      → IsReply fields (err (rpc_failed message))

view_of_key-none :
    (name : List ℕ) (fields : Entries)
    → find_tree name fields ≡ none
    → view_of_key name fields ≡ null_value
unfolding find_tree view_of_key
view_of_key-none name no_entries h = refl
view_of_key-none name (entry key j more) h = elim (Bool-cases (bytes_eq key name)) [
  | inl e ↦ absurd (ground (arith, e, h))
  | inr e ↦
      let rest : find_tree name more ≡ none = ground (arith, e, h) in
      rw e (view_of_key-none name more rest)
]

index_key-none :
    (v : JsonValue) (fields : Entries) (name : List ℕ)
    → Shows v (mapping fields)
    → find_tree name fields ≡ none
    → index_key v name ≡ null_value
unfolding IsWritten
index_key-none v fields name (h, (rest, (e, q))) f =
    ap (λ u. index_key u name) q
    ∙ (index_key-view fields name rest h ∙ view_of_key-none name fields f)

is_string-Shows : (v : JsonValue) (s : List ℕ) → Shows v (quoted s) → is_string v ≡ true
unfolding is_string view value_of type_of
is_string-Shows v s (h, (rest, (e, q))) = ap is_string q

null_no_string : is_string null_value ≡ false
unfolding is_string null_value
null_no_string = refl

not_empty : (s : List ℕ) → s ≢ [] → bytes_eq s [] ≡ false
not_empty [] h = absurd (h refl)
not_empty (c ∷ s) h = refl

throw_message-print :
    (fields inner : Entries) (message : List ℕ)
    → AreKept fields
    → find_tree (codes "error") fields ≡ some (mapping inner)
    → find_tree (codes "message") inner ≡ some (quoted message)
    → message ≢ []
    → throw_message (print (mapping fields)) ≡ err (rpc_failed message)
unfolding throw_message
throw_message-print fields inner message h f g n =
    let problem =
      Shows-index_key _ fields (codes "error") (mapping inner) (Shows-parse fields h) f in
    let said =
      as_string-Shows _ message
        (Shows-index_key _ inner (codes "message") (quoted message) problem g) in
    rw (said, not_empty message n) refl

read_signature-IsReply :
    (fields : Entries) (reply : Result (List ℕ))
    → AreKept fields
    → IsReply fields reply
    → read_signature (print (mapping fields)) ≡ reply
unfolding read_signature
read_signature-IsReply fields reply h (signed fields' signature f) =
    let v = Shows-index_key _ fields (codes "result") (quoted signature) (Shows-parse fields h) f in
    rw (is_string-Shows _ signature v) (as_string-Shows _ signature v)
read_signature-IsReply fields reply h (refused fields' inner message f g k n) =
    let gone = index_key-none _ fields (codes "result") (Shows-parse fields h) f in
    rw (gone, null_no_string) (throw_message-print fields inner message h g k n)

-- Where the request is answered with the compact text of a JSON document that is written as the
-- parser expects, sendTransaction returns the text under result, and where there is no result it
-- throws the message of the object under error, if that is not empty.
pub send_transaction-IsReply :
    (network : Network) (client : RpcClient) (base64_tx : List ℕ) (fields : Entries)
    (reply : Result (List ℕ))
    → rpc_post network client (send_transaction_body base64_tx) ≡ ok (print (mapping fields))
    → AreKept fields
    → IsReply fields reply
    → send_transaction network client base64_tx ≡ reply
unfolding send_transaction
send_transaction-IsReply network client base64_tx fields reply p h r =
    rw p (read_signature-IsReply fields reply h r)
