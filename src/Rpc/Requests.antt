-- ===== src/Rpc/Requests.antt =====
-- src/solana/rpc_client.cpp: the JSON texts that the methods of the client post.
use solana_cpp_sdk.Base.{ℕ, List, [], ◌∷◌, ◌++◌, Bool, if◌then◌else◌, codes}
use solana_cpp_sdk.Base.{Result, ok, ◌>>=◌}
use solana_cpp_sdk.PublicKey.{PublicKey, to_base58}
use solana_cpp_sdk.Rpc.Http.{to_string}

unfoldable pub latest_blockhash_body : List ℕ
latest_blockhash_body =
    codes
      "{\"jsonrpc\":\"2.0\",\"id\":1,\"method\":\"getLatestBlockhash\",\"params\":[{\"commitment\":\"finalized\"}]}"

unfoldable pub send_transaction_body : List ℕ → List ℕ
send_transaction_body base64_tx =
    codes "{\"jsonrpc\":\"2.0\",\"id\":1,\"method\":\"sendTransaction\",\"params\":[\""
    ++ (base64_tx ++ codes "\", {\"encoding\":\"base64\",\"preflightCommitment\":\"processed\"}]}")

unfoldable pub simulate_transaction_body : List ℕ → Bool → List ℕ
simulate_transaction_body base64_tx replace_recent_blockhash =
    let flag = if replace_recent_blockhash then codes "true" else codes "false" in
    codes "{\"jsonrpc\":\"2.0\",\"id\":1,\"method\":\"simulateTransaction\",\"params\":[\""
    ++ (base64_tx
        ++ (codes "\", {\"encoding\":\"base64\",\"replaceRecentBlockhash\":"
            ++ (flag ++ codes ",\"commitment\":\"processed\"}]}")))

unfoldable pub balance_body : List ℕ → List ℕ
balance_body key =
    codes "{\"jsonrpc\":\"2.0\",\"id\":1,\"method\":\"getBalance\",\"params\":[\""
    ++ (key ++ codes "\", {\"commitment\":\"finalized\"}]}")

unfoldable pub account_info_body : List ℕ → List ℕ
account_info_body key =
    codes "{\"jsonrpc\":\"2.0\",\"id\":1,\"method\":\"getAccountInfo\",\"params\":[\""
    ++ (key ++ codes "\", {\"encoding\":\"base64\",\"commitment\":\"finalized\"}]}")

-- `"..."` and `,` between the entries, and brackets around them.
unfoldable pub quoted_more : List (List ℕ) → List ℕ
quoted_more [] = codes "]"
quoted_more (text ∷ texts) = codes ",\"" ++ (text ++ (codes "\"" ++ quoted_more texts))

unfoldable pub quoted_list : List (List ℕ) → List ℕ
quoted_list [] = codes "[]"
quoted_list (text ∷ texts) = codes "[\"" ++ (text ++ (codes "\"" ++ quoted_more texts))

unfoldable pub keys_to_base58 : List PublicKey → Result (List (List ℕ))
keys_to_base58 [] = ok []
keys_to_base58 (key ∷ keys) = do
  text ← to_base58 key
  texts ← keys_to_base58 keys
  ok (text ∷ texts)

unfoldable pub multiple_accounts_body : List (List ℕ) → List ℕ
multiple_accounts_body keys =
    codes "{\"jsonrpc\":\"2.0\",\"id\":1,\"method\":\"getMultipleAccounts\",\"params\":["
    ++ (quoted_list keys ++ codes ", {\"encoding\":\"base64\",\"commitment\":\"finalized\"}]}")

unfoldable pub program_accounts_body : List ℕ → List ℕ → List ℕ
program_accounts_body program commitment =
    codes "{\"jsonrpc\":\"2.0\",\"id\":1,\"method\":\"getProgramAccounts\",\"params\":[\""
    ++ (program
        ++ (codes "\", {\"encoding\":\"base64\",\"commitment\":\""
            ++ (commitment ++ codes "\"}]}")))

unfoldable pub airdrop_body : List ℕ → ℕ → List ℕ
airdrop_body key lamports =
    codes "{\"jsonrpc\":\"2.0\",\"id\":1,\"method\":\"requestAirdrop\",\"params\":[\""
    ++ (key ++ (codes "\", " ++ (to_string lamports ++ codes "]}")))

unfoldable pub signature_statuses_body : List (List ℕ) → List ℕ
signature_statuses_body signatures =
    codes "{\"jsonrpc\":\"2.0\",\"id\":1,\"method\":\"getSignatureStatuses\",\"params\":["
    ++ (quoted_list signatures ++ codes ", {\"searchTransactionHistory\":true}]}")

unfoldable pub slot_body : List ℕ
slot_body =
    codes
      "{\"jsonrpc\":\"2.0\",\"id\":1,\"method\":\"getSlot\",\"params\":[{\"commitment\":\"finalized\"}]}"
