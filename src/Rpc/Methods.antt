-- ===== src/Rpc/Methods.antt =====
-- src/solana/rpc_client.cpp: the methods of the client, from the request to the value they return.
use solana_cpp_sdk.Base.{ℕ, zero, suc, ◌+◌, List, [], ◌∷◌, Bool, true, false, not, ◌||◌}
use solana_cpp_sdk.Base.{Option, none, some, leb, if◌then◌else◌, bytes_eq, codes, u32}
use solana_cpp_sdk.Base.{Result, ok, err, ◌>>=◌, rpc_failed, undefined_behaviour, is_exception}
use solana_cpp_sdk.Base64.{Compiler, base64_decode}
use solana_cpp_sdk.Json.{JsonValue, parse}
use solana_cpp_sdk.Json.Access.{
  as_string, as_uint, index_key, index_at, array_size, is_null, is_array, is_string,
}
use solana_cpp_sdk.LookupTable
use solana_cpp_sdk.LookupTable.{AddressLookupTableAccount}
use solana_cpp_sdk.PublicKey.{PublicKey, to_base58}
use solana_cpp_sdk.Rpc.{RpcClient}
use solana_cpp_sdk.Rpc.Http.{Network, rpc_post}
use solana_cpp_sdk.Rpc.Requests.{latest_blockhash_body, send_transaction_body, balance_body}
use solana_cpp_sdk.Rpc.Requests.{simulate_transaction_body, account_info_body, keys_to_base58}
use solana_cpp_sdk.Rpc.Requests.{multiple_accounts_body, program_accounts_body, airdrop_body}
use solana_cpp_sdk.Rpc.Requests.{signature_statuses_body, slot_body}

-- The field `data` is `payload`.
pub record AccountInfo : Type 0 where
  pub lamports : ℕ
  pub owner : List ℕ
  pub payload : List ℕ
  pub executable : Bool
  pub rent_epoch : ℕ
  pub exists : Bool

-- `AccountInfo()`
unfoldable pub no_account : AccountInfo
no_account = record {
  lamports = 0;
  owner = [];
  payload = [];
  executable = false;
  rent_epoch = 0;
  exists = false;
}

-- `arraySize()` where it is known to end, and undefined behaviour where it does not.
unfoldable pub array_size_of : JsonValue → Result ℕ
array_size_of v = elim (array_size v) [ none ↦ err undefined_behaviour | some n ↦ ok n ]

-- The field `data`, an array that starts with a text in base 64.
unfoldable pub account_payload : Compiler → JsonValue → Result (List ℕ)
account_payload compiler data_arr =
    if not (is_array data_arr)
    then ok []
    else (array_size_of data_arr >>= λ n.
        if leb 1 n
        then (as_string (index_at data_arr 0) >>= λ text. base64_decode compiler text)
        else ok [])

unfoldable pub parse_account_info_node : Compiler → JsonValue → Result AccountInfo
parse_account_info_node compiler node =
    if is_null node
    then ok no_account
    else (as_string (index_key node (codes "owner")) >>= λ owner.
        account_payload compiler (index_key node (codes "data")) >>= λ payload. ok (record {
          lamports = as_uint (index_key node (codes "lamports"));
          owner = owner;
          payload = payload;
          executable = (index_key node (codes "executable")).bool_val;
          rent_epoch = as_uint (index_key node (codes "rentEpoch"));
          exists = true;
        }))

-- `root["result"]["value"]`
unfoldable pub result_value : JsonValue → JsonValue
result_value root = index_key (index_key root (codes "result")) (codes "value")

-- The exception that carries the node's message, or else its response.
unfoldable pub throw_message : List ℕ → Result (List ℕ)
throw_message resp = do
  err_msg ← as_string (index_key (index_key (parse resp) (codes "error")) (codes "message"))
  err (rpc_failed (if bytes_eq err_msg [] then resp else err_msg))

unfoldable pub read_blockhash : List ℕ → Result (List ℕ)
read_blockhash resp = do
  bh ← as_string (index_key (result_value (parse resp)) (codes "blockhash"))
  if bytes_eq bh [] then throw_message resp else ok bh

unfoldable pub get_latest_blockhash : Network → RpcClient → Result (List ℕ)
get_latest_blockhash network client =
    rpc_post network client latest_blockhash_body >>= λ resp. read_blockhash resp

-- The text `root["result"]`, of `sendTransaction` and `requestAirdrop`.
unfoldable pub read_signature : List ℕ → Result (List ℕ)
read_signature resp =
    let result = index_key (parse resp) (codes "result") in
    if is_string result then as_string result else throw_message resp

unfoldable pub send_transaction : Network → RpcClient → List ℕ → Result (List ℕ)
send_transaction network client base64_tx =
    rpc_post network client (send_transaction_body base64_tx) >>= λ resp. read_signature resp

unfoldable pub simulate_transaction : Network → RpcClient → List ℕ → Bool → Result (List ℕ)
simulate_transaction network client base64_tx replace_recent_blockhash =
    rpc_post network client (simulate_transaction_body base64_tx replace_recent_blockhash)

unfoldable pub get_balance : Network → RpcClient → PublicKey → Result ℕ
get_balance network client pubkey = do
  key ← to_base58 pubkey
  resp ← rpc_post network client (balance_body key)
  ok (as_uint (result_value (parse resp)))

unfoldable pub get_account_info : Compiler → Network → RpcClient → PublicKey → Result AccountInfo
get_account_info compiler network client pubkey = do
  key ← to_base58 pubkey
  resp ← rpc_post network client (account_info_body key)
  parse_account_info_node compiler (result_value (parse resp))

-- The loop over the entries, with the rounds left and the next index.
unfoldable pub parse_account_infos : Compiler → ℕ → ℕ → JsonValue → Result (List AccountInfo)
parse_account_infos compiler zero i value_arr = ok []
parse_account_infos compiler (suc n) i value_arr = do
  info ← parse_account_info_node compiler (index_at value_arr i)
  infos ← parse_account_infos compiler n (i + 1) value_arr
  ok (info ∷ infos)

unfoldable pub read_account_infos : Compiler → JsonValue → Result (List AccountInfo)
read_account_infos compiler value_arr =
    if not (is_array value_arr)
    then ok []
    else (array_size_of value_arr >>= λ n. parse_account_infos compiler n 0 value_arr)

unfoldable pub get_multiple_accounts_info :
    Compiler → Network → RpcClient → List PublicKey → Result (List AccountInfo)
get_multiple_accounts_info compiler network client pubkeys = do
  keys ← keys_to_base58 pubkeys
  resp ← rpc_post network client (multiple_accounts_body keys)
  read_account_infos compiler (result_value (parse resp))

-- `none` for `false`.
unfoldable pub get_address_lookup_table :
    Compiler → Network → RpcClient → PublicKey → Result (Option AddressLookupTableAccount)
get_address_lookup_table compiler network client alt_key =
    get_account_info compiler network client alt_key >>= λ info.
    if not info.exists || bytes_eq info.payload []
    then ok none
    else LookupTable.parse alt_key info.payload

unfoldable pub get_program_accounts : Network → RpcClient → PublicKey → List ℕ → Result (List ℕ)
get_program_accounts network client program_id commitment = do
  key ← to_base58 program_id
  rpc_post network client (program_accounts_body key commitment)

unfoldable pub request_airdrop : Network → RpcClient → PublicKey → ℕ → Result (List ℕ)
request_airdrop network client pubkey lamports = do
  key ← to_base58 pubkey
  resp ← rpc_post network client (airdrop_body key lamports)
  read_signature resp

unfoldable pub get_signature_statuses : Network → RpcClient → List (List ℕ) → Result (List ℕ)
get_signature_statuses network client signatures =
    rpc_post network client (signature_statuses_body signatures)

unfoldable pub get_slot : Network → RpcClient → Result ℕ
get_slot network client = do
  resp ← rpc_post network client slot_body
  ok (as_uint (index_key (parse resp) (codes "result")))

-- One round of `confirmTransaction`: whether the status in the response ends the wait.
unfoldable pub is_confirmed : List ℕ → Result Bool
is_confirmed resp =
    let status = index_at (result_value (parse resp)) 0 in
    if is_null status
    then ok false
    else (as_string (index_key status (codes "confirmationStatus")) >>= λ cs. ok (
        bytes_eq cs (codes "finalized")
        || (bytes_eq cs (codes "confirmed") || bytes_eq cs (codes "processed"))))

-- What a round meets: the milliseconds since the start, and the network.
pub record Poll : Type 0 where
  pub elapsed : ℕ
  pub network : Network

-- `catch (...)`, behind which the loop goes on; `none` where the `try` block has undefined behaviour.
unfoldable pub confirmed_or_false : Result Bool → Option Bool
confirmed_or_false (err thrown) = if is_exception thrown then some false else none
confirmed_or_false (ok b) = some b

unfoldable pub poll_status : RpcClient → List ℕ → Network → Option Bool
poll_status client signature network =
    confirmed_or_false
      (do resp ← get_signature_statuses network client (signature ∷ []); is_confirmed resp)

-- The loop; `none` while it goes on behind the last round, and where a round has undefined behaviour.
unfoldable pub confirm_transaction : RpcClient → List ℕ → ℕ → List Poll → Option Bool
confirm_transaction client signature timeout_ms [] = none
confirm_transaction client signature timeout_ms (poll ∷ polls) =
    let later = confirm_transaction client signature timeout_ms polls in
    if leb timeout_ms (u32 poll.elapsed)
    then some false
    else elim (poll_status client signature poll.network) [
      | none ↦ none
      | some confirmed ↦ if confirmed then some true else later
    ]
