-- ===== src/Examples/Exchanges.antt =====
-- The two programs that make several requests, with a stand-in for libsodium and for the node.
use solana_cpp_sdk.Base.{
  ℕ, ◌≡◌, refl, arith, false, List, [], ◌∷◌, ◌++◌, ◌∙◌, codes, ok, err, Result,
}
use solana_cpp_sdk.Base.{replicate, length, All-replicate, IsByte}
use solana_cpp_sdk.Base.{tls_failed}
use solana_cpp_sdk.Base58
use solana_cpp_sdk.Sodium.{Sodium, IsSodium, WritesBytes}
use solana_cpp_sdk.PublicKey.Derived.{find_below-off}
use solana_cpp_sdk.Programs.Addresses.{not_long}
use solana_cpp_sdk.Rpc.{no_proxy}
use solana_cpp_sdk.PublicKey.{
  PublicKey, to_base58, to_bytes, find_program_address, any_too_long, derive_hash, from_array,
}
use solana_cpp_sdk.Keypair
use solana_cpp_sdk.Keypair.{Keypair}
use solana_cpp_sdk.Programs.Keys.{
  compute_budget_program_id-IsKey, token_program_id-IsKey, associated_token_program_id-IsKey,
  rent_sysvar-IsKey,
}
use solana_cpp_sdk.Programs.SplToken.{find_associated_token_address}
use solana_cpp_sdk.Programs.Shapes.{transfer_of}
use solana_cpp_sdk.Transaction.{Transaction, TransactionV0}
use solana_cpp_sdk.Transaction.EndToEnd
use solana_cpp_sdk.Transaction.EndToEndV0
use solana_cpp_sdk.Rpc.Http.{to_string, rpc_post, https_post}
use solana_cpp_sdk.Rpc.Methods.{get_account_info, simulate_transaction}
use solana_cpp_sdk.Rpc.Requests.{simulate_transaction_body}
use solana_cpp_sdk.Demos.{Session, outcome, seed_with}
use solana_cpp_sdk.Demos.Constants.{wallet-IsKey, mint-IsKey, devnet}
use solana_cpp_sdk.Demos.Exits.{exit_code}
use solana_cpp_sdk.Demos.SplTokenTransfer
use solana_cpp_sdk.Demos.TokenInstructions.{ProgramKeys, token_instructions}
use solana_cpp_sdk.Demos.TokenSent.{main_token_sends, Shown, IsSimulated}
use solana_cpp_sdk.Demos.Transferred.{main_transfers}
use solana_cpp_sdk.Demos.TransferSol
use solana_cpp_sdk.Examples.Data.{key, wrapping}
use solana_cpp_sdk.Examples.Nodes.{
  toy-WritesBytes, silent, ones, blockhash_node, blockhash_answered, signature_node,
  airdrop_answered, balance_node, balance_answered, one_poll, poll_answered,
}
use solana_cpp_sdk.Examples.Runs.{decode-ones}
use solana_cpp_sdk.Examples.Signing.{toy, toy-IsSodium, key_pair, made_from_seed}

-- Everything is granted.
abbrev session : Session
session = record {
  compiler = wrapping;
  airdrop = signature_node;
  airdrop_polls = one_poll;
  balance = balance_node;
  blockhash = blockhash_node;
  account = silent;
  simulation = silent;
  sending = signature_node;
  sending_polls = one_poll;
  sender_balance = balance_node;
  receiver_balance = balance_node;
}

unfoldable text_or_empty : Result (List ℕ) → List ℕ
unfolding to_base58 Base58.encode Base58.encode_loop Base58.encode_byte Base58.encode_capacity
    Base58.pass Base58.emit Base58.count_leading Base58.drop_zeros Base58.alphabet from_array
    Keypair.public_key
text_or_empty (ok text) = text
text_or_empty (err e) = []

abbrev shown : ℕ → Result (List ℕ)
shown n = to_base58 (Keypair.public_key (key_pair n))

first_text : shown 1 ≡ ok (text_or_empty (shown 1))
unfolding text_or_empty
first_text = refl

second_text : shown 2 ≡ ok (text_or_empty (shown 2))
unfolding text_or_empty
second_text = refl

main_transfers_example :
    (tx : Transaction) × (text : List ℕ) × EndToEnd.IsSigned toy
      (transfer_of (Keypair.public_key (key_pair 1)) (Keypair.public_key (key_pair 2)) 500000000
        ∷ [])
      (key_pair 1)
      (replicate 32 0)
      tx
      text
    × (outcome (
          TransferSol.main toy to_string session
            (toy.seed_keypair (replicate 32 1))
            (toy.seed_keypair (replicate 32 2)))
        ≡ exit_code session.sending session.sending_polls devnet text)
main_transfers_example =
    main_transfers toy to_string session toy-IsSodium toy-WritesBytes refl (replicate 32 1)
      (replicate 32 2) (key_pair 1) (key_pair 2) (codes "sig") ones (replicate 32 0) 7 7 7 refl
      (All-replicate IsByte 32 1 (omega arith)) refl (All-replicate IsByte 32 2 (omega arith))
      (made_from_seed 1) (made_from_seed 2) (airdrop_answered _ _ 2000000000 first_text)
      poll_answered (balance_answered _ _ first_text) blockhash_answered decode-ones refl
      (balance_answered _ _ first_text) (balance_answered _ _ second_text)

abbrev sender : Keypair
sender = record {
  public_bytes = replicate 32 0xab;
  secret_bytes = seed_with 0 0xab 1 0xcd ++ replicate 32 0xab;
}

-- Every hash is zero, and off the curve.
abbrev plain : Sodium
plain = record toy { sha256 = λ m. replicate 32 0; is_valid_point = λ h. false }

plain-IsSodium : IsSodium plain
plain-IsSodium = record {
  keypair_layout = toy-IsSodium.keypair_layout;
  verify_sign = toy-IsSodium.verify_sign;
}

plain-WritesBytes : WritesBytes plain
plain-WritesBytes = record {
  signature_bytes = toy-WritesBytes.signature_bytes;
  key_bytes = toy-WritesBytes.key_bytes;
  hash_bytes = λ m. (refl, All-replicate IsByte 32 0 (omega arith));
}

sender_made : Keypair.from_seed plain (seed_with 0 0xab 1 0xcd) ≡ ok sender
unfolding Keypair.from_seed seed_with
sender_made = refl

abbrev wallet : PublicKey
wallet = wallet-IsKey.0

abbrev mint : PublicKey
mint = mint-IsKey.0

zero_found :
    (owner : PublicKey)
    → length owner.bytes ≡ 32
    → find_associated_token_address plain owner mint ≡ ok (key 0, 255)
unfolding find_associated_token_address find_program_address to_bytes
zero_found owner size =
    let (token, te, tl) = token_program_id-IsKey in
    let (associated, ae, _) = associated_token_program_id-IsKey in
    let short : any_too_long (owner.bytes ∷ token.bytes ∷ mint.bytes ∷ []) ≡ false =
      unfold any_too_long in
      rw (not_long owner.bytes size, not_long token.bytes tl, not_long mint.bytes mint-IsKey.2)
        refl in
    rw (te, ae)
      (find_below-off plain (owner.bytes ∷ token.bytes ∷ mint.bytes ∷ []) associated short 255
          (omega arith) refl
        ∙ (unfold from_array derive_hash in refl))

programs : ProgramKeys
programs = record {
  budget = compute_budget_program_id-IsKey.0;
  token = token_program_id-IsKey.0;
  associated = associated_token_program_id-IsKey.0;
  rent = rent_sysvar-IsKey.0;
  is_budget = compute_budget_program_id-IsKey.1;
  is_token = token_program_id-IsKey.1;
  is_associated = associated_token_program_id-IsKey.1;
  is_rent = rent_sysvar-IsKey.1;
}

unfoldable zero_text : Result (List ℕ) → List ℕ
unfolding text_or_empty
zero_text r = text_or_empty r

zero_shown : to_base58 (key 0) ≡ ok (zero_text (to_base58 (key 0)))
unfolding zero_text
zero_shown = refl

-- The node does not answer for the recipient's account.
unanswered : (request : List ℕ) → rpc_post silent devnet request ≡ err tls_failed
unfolding rpc_post https_post no_proxy
unanswered request = refl

unseen : get_account_info session.compiler session.account devnet (key 0) ≡ err tls_failed
unfolding get_account_info
unseen = rw (zero_shown, unanswered) refl

unseen-Shown : Shown (get_account_info session.compiler session.account devnet (key 0)) false
unseen-Shown = rw unseen (refl, refl)

simulated : IsSimulated session.simulation
unfolding simulate_transaction
simulated encoded = rw (unanswered (simulate_transaction_body encoded false)) refl

main_token_sends_example :
    (tx : TransactionV0) × (text : List ℕ) × EndToEndV0.IsSigned plain
      (token_instructions programs (Keypair.public_key sender) (key 0) (key 0) wallet mint false)
      sender
      (replicate 32 0)
      tx
      text
    × (outcome (SplTokenTransfer.main plain session)
        ≡ exit_code session.sending session.sending_polls devnet text)
unfolding Keypair.public_key from_array
main_token_sends_example =
    main_token_sends plain session programs sender (key 0) (key 0) wallet mint plain-IsSodium
      plain-WritesBytes refl 255 255 ones (replicate 32 0) false sender_made wallet-IsKey.1
      mint-IsKey.1 (zero_found (Keypair.public_key sender) refl) (zero_found wallet wallet-IsKey.2)
      blockhash_answered decode-ones refl unseen-Shown simulated
