-- ===== src/Examples/Answers.antt =====
-- The methods of the RPC client at small responses.
use solana_cpp_sdk.Base.{
  ℕ, List, [], ◌∷◌, ◌++◌, true, false, ◌≡◌, refl, arith, codes, length, replicate, some, none, ok,
  ◌≤◌, err, rpc_failed,
}
use solana_cpp_sdk.Base.{ap, append-nil}
use solana_cpp_sdk.Base58
use solana_cpp_sdk.Base64.{base64_encode, sextet, base64_alphabet}
use solana_cpp_sdk.Json.{is_digit}
use solana_cpp_sdk.Json.Leaves.{find_tree, decimal}
use solana_cpp_sdk.Json.Print.{
  Tree, nothing, flag, digits, quoted, listing, mapping, Items, Entries, item, no_items,
}
use solana_cpp_sdk.Json.Print.{entry, no_entries, print, last_or}
use solana_cpp_sdk.Json.Written.{are_kept, is_key, are_digits, are_kept-AreKept}
use solana_cpp_sdk.PublicKey.{PublicKey, to_base58, to_bytes}
use solana_cpp_sdk.LookupTable.Laws.{table_bytes}
use solana_cpp_sdk.Base.{pos}
use solana_cpp_sdk.Rpc.AccountNodes.{IsAccount, absent, present, account, get_account_info-print}
use solana_cpp_sdk.Rpc.AccountList.{
  no_more, and_more, get_multiple_accounts_info-print, get_address_lookup_table-print,
}
use solana_cpp_sdk.Rpc.Delivery.{http_post-delivers}
use solana_cpp_sdk.Rpc.Http.{
  Network, http_request, to_string, write_digits, rpc_post, skip_headers, crlf,
}
use solana_cpp_sdk.Rpc.Methods.{
  no_account, get_account_info, get_multiple_accounts_info, get_address_lookup_table,
  send_transaction,
}
use solana_cpp_sdk.Rpc.Requests.{
  keys_to_base58, multiple_accounts_body, quoted_list, quoted_more, account_info_body,
  send_transaction_body,
}
use solana_cpp_sdk.Rpc.Replies.{refused, send_transaction-IsReply}
use solana_cpp_sdk.Examples.Data.{key, wrapping, wrapping-IsWrapping, are_bytes-IsByte}
use solana_cpp_sdk.Examples.Client.{client, headers, node}

-- The table of one address, in an account of 7 lamports.
abbrev slots : List ℕ
slots = replicate 17 0

abbrev table_account : Entries
table_account =
    entry (codes "data")
      (listing (
        item (quoted (base64_encode (table_bytes slots none (key 3 ∷ []))))
          (item (quoted (codes "base64")) no_items)))
      (entry (codes "executable") (flag false) (
        entry (codes "lamports") (digits 55 []) (
          entry (codes "owner") (quoted (codes "A"))
            (entry (codes "rentEpoch") (digits 48 []) no_entries))))

table_account-IsAccount :
    IsAccount
      (mapping table_account)
      (account 7 (codes "A") (table_bytes slots none (key 3 ∷ [])) false 0)
unfolding find_tree decimal to_bytes
table_account-IsAccount =
    present table_account (item (quoted (codes "base64")) no_items) 55 48 [] [] (codes "A")
      (table_bytes slots none (key 3 ∷ [])) false refl refl refl refl refl
      (are_bytes-IsByte (table_bytes slots none (key 3 ∷ [])) refl) (omega arith) (omega arith)

-- {"result":{"context":{"slot":1},"value":...}}
abbrev answer : Tree → Entries
answer j =
    entry (codes "result")
      (mapping (
        entry (codes "context") (mapping (entry (codes "slot") (digits 49 []) no_entries))
          (entry (codes "value") j no_entries)))
      no_entries

abbrev zero_key : PublicKey
zero_key = key 0

abbrev zero_text : List ℕ
zero_text = replicate 32 49

zero_key_text : to_base58 zero_key ≡ ok zero_text
unfolding to_base58 Base58.encode Base58.encode_loop Base58.encode_byte Base58.encode_capacity
    Base58.pass Base58.emit Base58.count_leading Base58.drop_zeros Base58.alphabet
zero_key_text = refl

table_answer_kept : are_kept (answer (mapping table_account)) ≡ true
unfolding are_kept is_key are_digits is_digit last_or base64_encode sextet base64_alphabet to_bytes
table_answer_kept = refl

abbrev table_node : Network
table_node = node (print (mapping (answer (mapping table_account))))

short : length (http_request (codes "localhost") (codes "/") (account_info_body zero_text)) ≤ 5010
unfolding http_request to_string write_digits account_info_body
short = omega arith

no_break : skip_headers (headers ++ (13 ∷ 10 ∷ 13 ∷ [])) ≡ none
unfolding skip_headers
no_break = refl

answered :
    (body request : List ℕ)
    → length (http_request (codes "localhost") (codes "/") request) ≤ 5010
    → rpc_post (node body) client request ≡ ok body
unfolding rpc_post
answered body request small =
    http_post-delivers (node body) (codes "localhost") (codes "/") request headers body (pos 8080)
      (10 ∷ 5000 ∷ []) (headers ∷ crlf (crlf body) ∷ []) refl (omega arith, (omega arith, tt)) small
      (ap (λ s. headers ++ crlf (crlf s)) (append-nil body)) no_break

get_account_info-print_example :
    get_account_info wrapping table_node client zero_key
    ≡ ok (account 7 (codes "A") (table_bytes slots none (key 3 ∷ [])) false 0)
unfolding find_tree
get_account_info-print_example =
    get_account_info-print wrapping table_node client zero_key zero_text
      (answer (mapping table_account)) _ (mapping table_account) _ wrapping-IsWrapping zero_key_text
      (answered _ (account_info_body zero_text) short) (are_kept-AreKept _ table_answer_kept) refl
      refl table_account-IsAccount

get_address_lookup_table-print_example :
    get_address_lookup_table wrapping table_node client zero_key
    ≡ ok (some (record { key = zero_key; addresses = key 3 ∷ [] }))
unfolding find_tree
get_address_lookup_table-print_example =
    get_address_lookup_table-print wrapping table_node client zero_key zero_text
      (answer (mapping table_account)) _ (mapping table_account) 7 0 (codes "A") slots false none
      (key 3 ∷ []) wrapping-IsWrapping zero_key_text
      (answered _ (account_info_body zero_text) short) (are_kept-AreKept _ table_answer_kept) refl
      refl table_account-IsAccount refl tt (refl, tt)

-- Two accounts, of which only the second exists.
abbrev two_accounts : Items
two_accounts = item nothing (item (mapping table_account) no_items)

two_answer_kept : are_kept (answer (listing two_accounts)) ≡ true
unfolding are_kept is_key are_digits is_digit last_or base64_encode sextet base64_alphabet to_bytes
two_answer_kept = refl

two_texts : keys_to_base58 (zero_key ∷ zero_key ∷ []) ≡ ok (zero_text ∷ zero_text ∷ [])
unfolding keys_to_base58
two_texts = rw (keys_to_base58, zero_key_text) refl

short_two :
    length (
      http_request
        (codes "localhost")
        (codes "/")
        (multiple_accounts_body (zero_text ∷ zero_text ∷ [])))
    ≤ 5010
unfolding http_request to_string write_digits multiple_accounts_body quoted_list quoted_more
short_two = omega arith

get_multiple_accounts_info-print_example :
    get_multiple_accounts_info wrapping
      (node (print (mapping (answer (listing two_accounts)))))
      client
      (zero_key ∷ zero_key ∷ [])
    ≡ ok (no_account ∷ account 7 (codes "A") (table_bytes slots none (key 3 ∷ [])) false 0 ∷ [])
unfolding find_tree
get_multiple_accounts_info-print_example =
    get_multiple_accounts_info-print wrapping
      (node (print (mapping (answer (listing two_accounts))))) client (zero_key ∷ zero_key ∷ [])
      (zero_text ∷ zero_text ∷ []) (answer (listing two_accounts)) _ two_accounts _
      wrapping-IsWrapping two_texts
      (answered _ (multiple_accounts_body (zero_text ∷ zero_text ∷ [])) short_two)
      (are_kept-AreKept _ two_answer_kept) refl refl
      (and_more nothing _ no_account _ absent
        (and_more (mapping table_account) _ _ _ table_account-IsAccount no_more))

-- {"error":{"code":1,"message":"full"}}
abbrev refusal : Entries
refusal =
    entry (codes "error")
      (mapping (
        entry (codes "code") (digits 49 [])
          (entry (codes "message") (quoted (codes "full")) no_entries)))
      no_entries

refusal_kept : are_kept refusal ≡ true
unfolding are_kept is_key are_digits is_digit last_or
refusal_kept = refl

short_sent :
    length (http_request (codes "localhost") (codes "/") (send_transaction_body (codes "AQ==")))
    ≤ 5010
unfolding http_request to_string write_digits send_transaction_body
short_sent = omega arith

send_transaction-IsReply_example :
    send_transaction (node (print (mapping refusal))) client (codes "AQ==")
    ≡ err (rpc_failed (codes "full"))
unfolding find_tree
send_transaction-IsReply_example =
    send_transaction-IsReply (node (print (mapping refusal))) client (codes "AQ==") refusal _
      (answered _ (send_transaction_body (codes "AQ==")) short_sent)
      (are_kept-AreKept _ refusal_kept) (refused refusal _ (codes "full") refl refl refl (λ e. cc))
