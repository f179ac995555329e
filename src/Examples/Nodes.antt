-- ===== src/Examples/Nodes.antt =====
-- Nodes behind TLS, and a stand-in for libsodium that writes bytes.
use solana_cpp_sdk.Base.{ℕ, ◌≡◌, ◌<◌, refl, arith, List, [], ◌∷◌, ◌+◌, ◌%◌, true, false, codes, ok}
use solana_cpp_sdk.Base.{
  All, All-replicate, IsByte, length, length-replicate, replicate, get_or, some,
}
use solana_cpp_sdk.Sodium.{WritesBytes}
use solana_cpp_sdk.Rpc.Http.{Network, crlf, https_post, rpc_post, skip_headers, body_of, append_all}
use solana_cpp_sdk.Json.{
  parse, parse_value, parse_at, parse_word, has_word, parse_number, parse_container, parse_string,
  string_value, value_of, skip_number, skip_exponent, skip_sign, skip_fraction, skip_digits,
  is_digit, scan_string, find_matching_brace, next_depth, next_in_string, skip_char,
  skip_whitespace, is_space, null_value,
}
use solana_cpp_sdk.Json.Access.{
  index_key, is_object, find_key, or_null, skip_quote, entry_value, skip_comma, as_string,
  is_string, content, unescape, unescape_char, as_uint, is_number, is_array, strtoull, digits_value,
  index_at, find_at, is_null,
}
use solana_cpp_sdk.Rpc.{no_proxy}
use solana_cpp_sdk.PublicKey.{PublicKey, to_base58}
use solana_cpp_sdk.Rpc.Methods.{
  Poll, get_latest_blockhash, read_blockhash, result_value, read_signature, request_airdrop,
  get_balance, is_confirmed, poll_status, get_signature_statuses, confirmed_or_false,
  confirm_transaction,
}
use solana_cpp_sdk.Rpc.Requests.{
  latest_blockhash_body, airdrop_body, balance_body, signature_statuses_body,
}
use solana_cpp_sdk.Demos.Constants.{devnet}
use solana_cpp_sdk.Examples.Signing.{toy, sum}

get_or-IsByte : (s : List ℕ) → All IsByte s → get_or s 0 0 < 256
get_or-IsByte [] h = omega arith
get_or-IsByte (b ∷ s) h = h.0

signature : (n : ℕ) → (length (replicate 64 (n % 256)) ≡ 64) × All IsByte (replicate 64 (n % 256))
signature n = (length-replicate 64 (n % 256), All-replicate IsByte 64 (n % 256) (omega arith))

pub toy-WritesBytes : WritesBytes toy
toy-WritesBytes = record {
  signature_bytes = λ m key. signature (get_or key 0 0 + sum m);
  key_bytes = λ s len h. All-replicate IsByte 32 (get_or s 0 0) (get_or-IsByte s h);
  hash_bytes = λ m. (refl, (omega arith, All-replicate IsByte 31 0 (omega arith)));
}

-- A node that answers every request with a body.
abbrev pub tls_node : List ℕ → Network
tls_node body = record {
  http = λ host port request. record {
    resolved = false;
    opened = false;
    connected = false;
    sent = [];
    received = [];
  };
  https = λ host port request. record {
    has_context = true;
    resolved = true;
    opened = true;
    connected = true;
    has_session = true;
    handshaken = true;
    written = true;
    received = crlf (crlf body) ∷ [];
  };
}

-- No answer at all.
abbrev pub silent : Network
silent = record {
  http = λ host port request. record {
    resolved = false;
    opened = false;
    connected = false;
    sent = [];
    received = [];
  };
  https = λ host port request. record {
    has_context = false;
    resolved = false;
    opened = false;
    connected = false;
    has_session = false;
    handshaken = false;
    written = false;
    received = [];
  };
}

abbrev pub ones : List ℕ
ones = codes "11111111111111111111111111111111"

abbrev blockhash_body : List ℕ
blockhash_body =
    codes "{\"result\":{\"value\":{\"blockhash\":\"11111111111111111111111111111111\"}}}"

abbrev pub blockhash_node : Network
blockhash_node = tls_node blockhash_body

-- The text itself; where it unfolds, the parser and the accessors compute.
unfoldable evaluate : List ℕ → List ℕ
unfolding result_value index_key is_object find_key or_null skip_quote entry_value skip_comma
    as_string is_string content unescape unescape_char parse parse_value parse_at parse_word
    has_word parse_number parse_container parse_string string_value value_of skip_number
    skip_exponent skip_sign skip_fraction skip_digits is_digit scan_string find_matching_brace
    next_depth next_in_string skip_char skip_whitespace is_space null_value as_uint is_number
    is_array strtoull digits_value index_at find_at is_null
evaluate text = text

-- A request gets the body.
pub answered_tls : (body request : List ℕ) → rpc_post (tls_node body) devnet request ≡ ok body
unfolding rpc_post https_post body_of skip_headers append_all no_proxy
answered_tls body request = refl

read_ones : read_blockhash blockhash_body ≡ ok ones
unfolding read_blockhash evaluate
read_ones = refl

pub blockhash_answered : get_latest_blockhash blockhash_node devnet ≡ ok ones
unfolding get_latest_blockhash
blockhash_answered = rw (answered_tls blockhash_body latest_blockhash_body) read_ones

-- Any request for a signature gets `sig`.
abbrev signature_body : List ℕ
signature_body = codes "{\"result\":\"sig\"}"

abbrev pub signature_node : Network
signature_node = tls_node signature_body

pub read_sig : read_signature signature_body ≡ ok (codes "sig")
unfolding read_signature evaluate
read_sig = refl

pub airdrop_answered :
    (key : PublicKey) (text : List ℕ) (lamports : ℕ)
    → to_base58 key ≡ ok text
    → request_airdrop signature_node devnet key lamports ≡ ok (codes "sig")
unfolding request_airdrop
airdrop_answered key text lamports shown =
    rw (shown, answered_tls signature_body (airdrop_body text lamports)) read_sig

abbrev balance_body_text : List ℕ
balance_body_text = codes "{\"result\":{\"value\":7}}"

abbrev pub balance_node : Network
balance_node = tls_node balance_body_text

pub balance_answered :
    (key : PublicKey) (text : List ℕ)
    → to_base58 key ≡ ok text
    → get_balance balance_node devnet key ≡ ok 7
unfolding get_balance result_value evaluate
balance_answered key text shown =
    rw (shown, answered_tls balance_body_text (balance_body text)) refl

abbrev status_body : List ℕ
status_body = codes "{\"result\":{\"value\":[{\"confirmationStatus\":\"finalized\"}]}}"

abbrev pub one_poll : List Poll
one_poll = record { elapsed = 0; network = tls_node status_body } ∷ []

read_status : is_confirmed status_body ≡ ok true
unfolding is_confirmed result_value evaluate
read_status = refl

polled : poll_status devnet (codes "sig") (tls_node status_body) ≡ some true
unfolding poll_status get_signature_statuses confirmed_or_false
polled =
    rw (answered_tls status_body (signature_statuses_body (codes "sig" ∷ [])), read_status) refl

pub poll_answered : confirm_transaction devnet (codes "sig") 30000 one_poll ≡ some true
unfolding confirm_transaction
poll_answered = rw polled refl

-- A text that is not in base58.
abbrev bad_body : List ℕ
bad_body = codes "{\"result\":{\"value\":{\"blockhash\":\"0\"}}}"

abbrev pub bad_node : Network
bad_node = tls_node bad_body

read_bad : read_blockhash bad_body ≡ ok (codes "0")
unfolding read_blockhash evaluate
read_bad = refl

pub bad_answered : get_latest_blockhash bad_node devnet ≡ ok (codes "0")
unfolding get_latest_blockhash
bad_answered = rw (answered_tls bad_body latest_blockhash_body) read_bad
