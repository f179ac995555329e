-- ===== src/Examples/Runs.antt =====
-- Whole transactions and whole programs, with a stand-in for libsodium and for the node.
use solana_cpp_sdk.Base.{true, false}
use solana_cpp_sdk.Base.{ℕ, ◌≡◌, refl, arith, true, List, [], ◌∷◌, codes, ok, err}
use solana_cpp_sdk.Base.{replicate, some, get_elem?, All, invalid_base58_character}
use solana_cpp_sdk.Base58
use solana_cpp_sdk.PublicKey.{PublicKey, IsPublicKey, from_base58, from_array}
use solana_cpp_sdk.Keypair
use solana_cpp_sdk.Keypair.{Keypair}
use solana_cpp_sdk.Message
use solana_cpp_sdk.Message.{Message}
use solana_cpp_sdk.Message.Sizes.{IsInstruction}
use solana_cpp_sdk.MessageV0
use solana_cpp_sdk.MessageV0.{MessageV0}
use solana_cpp_sdk.Programs.ComputeBudget.{compute_budget_program_id}
use solana_cpp_sdk.Programs.Shapes.{transfer_of}
use solana_cpp_sdk.Transaction.{Transaction, TransactionV0, make, make_v0, sign, sign_v0}
use solana_cpp_sdk.Transaction.{to_base64, to_base64_v0}
use solana_cpp_sdk.Transaction.EndToEnd
use solana_cpp_sdk.Transaction.EndToEnd.{to_base64-sign}
use solana_cpp_sdk.Transaction.EndToEndV0
use solana_cpp_sdk.Transaction.EndToEndV0.{to_base64_v0-sign_v0}
use solana_cpp_sdk.Rpc.{no_proxy}
use solana_cpp_sdk.Rpc.Exceptions.{is_safe, rpc_post_safe}
use solana_cpp_sdk.Rpc.Http.{Network, rpc_post, to_string}
use solana_cpp_sdk.Demos.{Session, returned, thrown, out, outcome, printed, seed_with}
use solana_cpp_sdk.Demos.Constants.{wrapped_sol, wallet_text, devnet}
use solana_cpp_sdk.Demos.Exits.{exit_code}
use solana_cpp_sdk.Demos.OfflineSign
use solana_cpp_sdk.Demos.Signed.{main_prints}
use solana_cpp_sdk.Demos.Sent.{sent_instructions, main_sends, main_uncaught}
use solana_cpp_sdk.Demos.V0Transaction
use solana_cpp_sdk.Examples.Data.{two_instructions, wrapping}
use solana_cpp_sdk.Examples.Nodes.{
  toy-WritesBytes, silent, ones, blockhash_node, blockhash_answered, bad_node, bad_answered,
}
use solana_cpp_sdk.Examples.Signing.{toy, toy-IsSodium, key_pair, made_from_seed}

pub decode-ones : Base58.decode ones ≡ ok (replicate 32 0)
unfolding Base58.decode Base58.decode_loop Base58.digit_of Base58.decode_digit Base58.count_leading
    Base58.drop_zeros Base58.alphabet_map Base58.pass Base58.emit
decode-ones = refl

payer_whole : IsPublicKey (Keypair.public_key (key_pair 1))
unfolding Keypair.public_key from_array
payer_whole = (refl, omega arith)

two_instructions-IsInstruction : All IsInstruction two_instructions
two_instructions-IsInstruction = (
  (
    (refl, omega arith),
    ((((refl, omega arith), ((refl, omega arith), tt))), (omega arith, omega arith)),
  ),
  (
    ((refl, omega arith), ((((refl, omega arith), ((refl, omega arith), tt))), (tt, omega arith))),
    tt,
  ),
)

to_base64-sign_example :
    (msg : Message) × (tx : Transaction) × (text : List ℕ) × (Message.compile two_instructions
        (Keypair.public_key (key_pair 1))
        ones
      ≡ ok msg)
    × (sign toy (make msg) (key_pair 1 ∷ []) ≡ ok tx)
    × (to_base64 tx ≡ ok text)
    × EndToEnd.IsSigned toy two_instructions (key_pair 1) (replicate 32 0) tx text
to_base64-sign_example =
    to_base64-sign toy toy-IsSodium toy-WritesBytes refl two_instructions (key_pair 1) ones
      (replicate 32 0) (replicate 32 1, refl, made_from_seed 1) payer_whole
      two_instructions-IsInstruction (omega arith) decode-ones refl

to_base64_v0-sign_v0_example :
    (msg : MessageV0) × (tx : TransactionV0) × (text : List ℕ) × (MessageV0.compile two_instructions
        (Keypair.public_key (key_pair 1))
        ones
        []
      ≡ ok msg)
    × (sign_v0 toy (make_v0 msg) (key_pair 1 ∷ []) ≡ ok tx)
    × (to_base64_v0 tx ≡ ok text)
    × EndToEndV0.IsSigned toy two_instructions (key_pair 1) (replicate 32 0) tx text
to_base64_v0-sign_v0_example =
    to_base64_v0-sign_v0 toy toy-IsSodium toy-WritesBytes refl two_instructions (key_pair 1) ones
      (replicate 32 0) (replicate 32 1, refl, made_from_seed 1) payer_whole
      two_instructions-IsInstruction (omega arith) decode-ones refl

-- A network on which OpenSSL makes no object for the connection.
abbrev exhausted : Network
exhausted = record {
  http = silent.http;
  https = λ host port request. record {
    has_context = true;
    resolved = true;
    opened = true;
    connected = true;
    has_session = false;
    handshaken = false;
    written = false;
    received = [];
  };
}

rpc_post_safe_example : is_safe (rpc_post exhausted devnet (codes "[]")) ≡ false
unfolding no_proxy
rpc_post_safe_example = rpc_post_safe exhausted devnet (codes "[]")

main_prints_example :
    (signer : Keypair) × (recipient : PublicKey) × (tx : Transaction) × (text : List ℕ)
    × (Keypair.from_seed toy (seed_with 0 0x01 31 0xff) ≡ ok signer)
    × (from_base58 wrapped_sol ≡ ok recipient)
    × (outcome (OfflineSign.main toy to_string) ≡ returned 0)
    × (get_elem? (printed (OfflineSign.main toy to_string)) 12 ≡ some (out text))
    × EndToEnd.IsSigned toy
        (transfer_of (Keypair.public_key signer) recipient 100000 ∷ [])
        signer
        (replicate 32 0)
        tx
        text
main_prints_example = main_prints toy to_string toy-IsSodium toy-WritesBytes refl

-- The node refuses nothing but gives no signature.
abbrev session : Session
session = record {
  compiler = wrapping;
  airdrop = silent;
  airdrop_polls = [];
  balance = silent;
  blockhash = blockhash_node;
  account = silent;
  simulation = silent;
  sending = silent;
  sending_polls = [];
  sender_balance = silent;
  receiver_balance = silent;
}

main_sends_example :
    (sender : Keypair) × (recipient program : PublicKey) × (tx : TransactionV0) × (text : List ℕ)
    × (Keypair.from_seed toy (seed_with 0 0xab 1 0xcd) ≡ ok sender)
    × (from_base58 wallet_text ≡ ok recipient)
    × (compute_budget_program_id ≡ ok program)
    × EndToEndV0.IsSigned toy
        (sent_instructions program (Keypair.public_key sender) recipient)
        sender
        (replicate 32 0)
        tx
        text
    × (outcome (V0Transaction.main toy session)
        ≡ exit_code session.sending session.sending_polls devnet text)
main_sends_example =
    main_sends toy session toy-IsSodium toy-WritesBytes refl ones (replicate 32 0)
      blockhash_answered decode-ones refl

abbrev bad_session : Session
bad_session = record session { blockhash = bad_node }

bad_decode : Base58.decode (codes "0") ≡ err invalid_base58_character
unfolding Base58.decode Base58.decode_loop Base58.digit_of Base58.alphabet_map
bad_decode = refl

main_uncaught_example :
    outcome (V0Transaction.main toy bad_session) ≡ thrown invalid_base58_character
main_uncaught_example =
    main_uncaught toy bad_session toy-IsSodium toy-WritesBytes refl (codes "0")
      invalid_base58_character bad_answered bad_decode
