-- ===== src/Demos/TokenSent.antt =====
-- examples/spl_token_transfer.cpp: what the program sends, and how it ends.
use solana_cpp_sdk.Base.{ℕ, ◌≡◌, refl, arith, sym, ◌∙◌, true, false, Bool, List, [], ◌∷◌, length}
use solana_cpp_sdk.Base.{
  ok, err, ap, Error, Result, Result-cases, inl, inr, codes, is_exception, Bool-cases,
}
use mathlib.Core.Path.{subst}
use solana_cpp_sdk.Base58
use solana_cpp_sdk.Sodium.{Sodium, IsSodium, WritesBytes}
use solana_cpp_sdk.PublicKey.{PublicKey, IsPublicKey, from_base58}
use solana_cpp_sdk.PublicKey.Texts.{from_base58-IsPublicKey, to_base58-IsPublicKey}
use solana_cpp_sdk.Instruction.{Instruction}
use solana_cpp_sdk.Keypair
use solana_cpp_sdk.Keypair.{Keypair}
use solana_cpp_sdk.Keypair.Bytes.{from_seed-IsPublicKey}
use solana_cpp_sdk.MessageV0
use solana_cpp_sdk.MessageV0.{MessageV0}
use solana_cpp_sdk.Programs.Addresses.{find_associated_token_address-IsPublicKey}
use solana_cpp_sdk.Programs.SplToken.{find_associated_token_address}
use solana_cpp_sdk.Programs.Shapes.{
  budget_lem, transfer_checked_lem, create_associated_token_account_lem,
}
use solana_cpp_sdk.Rpc.Exceptions.{is_safe}
use solana_cpp_sdk.Rpc.Http.{Network}
use solana_cpp_sdk.Rpc.Methods.{
  AccountInfo, get_latest_blockhash, get_account_info, simulate_transaction,
}
use solana_cpp_sdk.Transaction.{TransactionV0, make_v0, sign_v0, to_base64_v0}
use solana_cpp_sdk.Transaction.EndToEndV0.{IsSigned, to_base64_v0-sign_v0}
use solana_cpp_sdk.Demos.{Run, Session, returned, outcome, ◌>>=◌, or_continue, seed_with}
use solana_cpp_sdk.Demos.Constants.{
  wallet_text, mint_text, sender_seed-IsByte, sender_seed_size, devnet, parse_endpoint-devnet,
}
use solana_cpp_sdk.Demos.Exits.{exit_code, outcome_spl}
use solana_cpp_sdk.Demos.TokenInstructions.{ProgramKeys, token_instructions, instructions_shape}
use solana_cpp_sdk.Demos.SplTokenTransfer.{
  main, build_and_send, sign_and_send, fetch_blockhash, simulate, exists_or_false,
  create_if_missing,
}

-- What a request for an account says of it: whether it exists; and of one that throws an exception,
-- that it does not.
abbrev pub Shown : Result AccountInfo → Bool → Type 0
Shown (ok info) exists = info.exists ≡ exists
Shown (err e) exists = (is_exception e ≡ true) × (exists ≡ false)

exists_or_false-Shown :
    (answer : Result AccountInfo) (exists : Bool)
    → Shown answer exists
    → exists_or_false answer ≡ returned exists
unfolding exists_or_false
exists_or_false-Shown (ok info) exists h = ap returned h
exists_or_false-Shown (err e) exists (caught, missing) = rw (caught, missing) refl

-- Simulating has no undefined behaviour, whatever the text.
abbrev pub IsSimulated : Network → Type 0
IsSimulated network =
    (encoded : List ℕ) → is_safe (simulate_transaction network devnet encoded false) ≡ true

simulation-IsException :
    (network : Network) (encoded : List ℕ) (e : Error)
    → IsSimulated network
    → simulate_transaction network devnet encoded false ≡ err e
    → is_exception e ≡ true
simulation-IsException network encoded e defined failed =
    subst (λ r. is_safe r ≡ true) failed (defined encoded)

ok-injective : (a b : Keypair) → ok a ≡ ok b → a ≡ b
ok-injective a b e = cc

-- A simulation that throws does not stop the program.
simulated :
    (network : Network) (encoded : List ℕ) (next : Run ℕ)
    → IsSimulated network
    → outcome (
        or_continue (simulate network devnet encoded) (codes "simulateTransaction error: ")
        >>= λ done. next)
      ≡ outcome next
unfolding simulate outcome
simulated network encoded next defined =
    elim (Result-cases (simulate_transaction network devnet encoded false)) [
      | inl (e, failed) ↦ rw (failed, simulation-IsException network encoded e defined failed) refl
      | inr (resp, got) ↦ rw got refl
    ]

module _ (sodium : Sodium) (session : Session) where
  sign_and_send_exits :
      (sender : Keypair) (instructions : List Instruction) (blockhash text : List ℕ)
      (msg : MessageV0) (tx : TransactionV0)
      → IsSimulated session.simulation
      → MessageV0.compile instructions (Keypair.public_key sender) blockhash [] ≡ ok msg
      → sign_v0 sodium (make_v0 msg) (sender ∷ []) ≡ ok tx
      → to_base64_v0 tx ≡ ok text
      → outcome (sign_and_send sodium session devnet sender instructions blockhash)
        ≡ exit_code session.sending session.sending_polls devnet text
  unfolding sign_and_send outcome
  sign_and_send_exits sender instructions blockhash text msg tx defined compiled signed encoded =
      rw (compiled, signed, encoded)
        (simulated session.simulation text _ defined
          ∙ outcome_spl session.sending session.sending_polls devnet text)

  module _ (programs : ProgramKeys) (sender : Keypair)
      (sender_ata recipient_ata wallet mint : PublicKey) where
    abbrev instructions : Bool → List Instruction
    instructions exists =
        token_instructions programs (Keypair.public_key sender) sender_ata recipient_ata wallet mint
          exists

    module _ (sender_key : IsPublicKey (Keypair.public_key sender))
        (source : IsPublicKey sender_ata) (dest : IsPublicKey recipient_ata)
        (owner : IsPublicKey wallet) (coin : IsPublicKey mint) where
      build_and_send_sends :
          (blockhash : List ℕ) (exists : Bool)
          → Shown (get_account_info session.compiler session.account devnet recipient_ata) exists
          → outcome (
              build_and_send sodium session devnet sender sender_ata recipient_ata wallet mint
                blockhash)
            ≡ outcome (sign_and_send sodium session devnet sender (instructions exists) blockhash)
      unfolding build_and_send create_if_missing outcome
      build_and_send_sends blockhash exists shown =
          let seen =
            exists_or_false-Shown
              (get_account_info session.compiler session.account devnet recipient_ata) exists
              shown in
          let (limit, price, _, _) = budget_lem programs.budget 100000 1000 programs.is_budget in
          let (checked, _) =
            transfer_checked_lem programs.token sender_ata mint recipient_ata
              (Keypair.public_key sender) 1500000 6 programs.is_token source coin dest sender_key
              (omega arith) in
          let (created, _) =
            create_associated_token_account_lem programs.associated programs.token programs.rent
              (Keypair.public_key sender) recipient_ata wallet mint programs.is_associated
              programs.is_token programs.is_rent sender_key dest owner coin in
          elim (Bool-cases exists) [
            | inl there ↦ rw (seen, there, limit, price, checked) refl
            | inr missing ↦ rw (seen, missing, limit, price, created, checked) refl
          ]

    module _ (laws : IsSodium sodium) (writes : WritesBytes sodium)
        (ready : sodium.ready ≡ true) where
      -- With libsodium initialised, where both associated addresses are found, getLatestBlockhash
      -- returns a text that decodes to 32 bytes, getAccountInfo returns an account or throws an
      -- exception and simulateTransaction has no undefined behaviour, spl_token_transfer hands a
      -- signed V0 transaction to sendTransaction: it stands for the limit, the price, the creation
      -- of the recipient's account, left out exactly if getAccountInfo returns an account that
      -- exists, and the transfer, and its first signature is the sender's and verifies. Whatever
      -- the simulation returns or throws, the program returns 1 if sendTransaction throws an
      -- exception, and else 0, once confirmTransaction is over.
      pub main_token_sends :
          (sender_bump recipient_bump : ℕ) (blockhash bh : List ℕ) (exists : Bool)
          → Keypair.from_seed sodium (seed_with 0 0xab 1 0xcd) ≡ ok sender
          → from_base58 wallet_text ≡ ok wallet
          → from_base58 mint_text ≡ ok mint
          → find_associated_token_address sodium (Keypair.public_key sender) mint
            ≡ ok (sender_ata, sender_bump)
          → find_associated_token_address sodium wallet mint ≡ ok (recipient_ata, recipient_bump)
          → get_latest_blockhash session.blockhash devnet ≡ ok blockhash
          → Base58.decode blockhash ≡ ok bh
          → length bh ≡ 32
          → Shown (get_account_info session.compiler session.account devnet recipient_ata) exists
          → IsSimulated session.simulation
          → (tx : TransactionV0) × (text : List ℕ) × IsSigned sodium
              (instructions exists)
              sender
              bh
              tx
              text
            × (outcome (main sodium session)
                ≡ exit_code session.sending session.sending_polls devnet text)
      unfolding main fetch_blockhash outcome
      main_token_sends sender_bump recipient_bump blockhash bh exists made read coin_read found
            found' got e len seen defined =
          let (sender', made', sender_key') =
            from_seed-IsPublicKey sodium (seed_with 0 0xab 1 0xcd) laws writes ready
              sender_seed_size sender_seed-IsByte in
          let same : sender' ≡ sender = ok-injective sender' sender (sym made' ∙ made) in
          let sender_key : IsPublicKey (Keypair.public_key sender) =
            subst (λ kp. IsPublicKey (Keypair.public_key kp)) same sender_key' in
          let owner = from_base58-IsPublicKey wallet_text wallet read in
          let coin = from_base58-IsPublicKey mint_text mint coin_read in
          let source =
            find_associated_token_address-IsPublicKey sodium (Keypair.public_key sender) mint
              sender_ata sender_bump writes sender_key coin found in
          let dest =
            find_associated_token_address-IsPublicKey sodium wallet mint recipient_ata
              recipient_bump writes owner coin found' in
          let (_, a) = to_base58-IsPublicKey (Keypair.public_key sender) sender_key in
          let (_, b) = to_base58-IsPublicKey sender_ata source in
          let (_, c) = to_base58-IsPublicKey wallet owner in
          let (_, d) = to_base58-IsPublicKey recipient_ata dest in
          let (shapes, few) =
            instructions_shape programs (Keypair.public_key sender) sender_ata recipient_ata wallet
              mint sender_key source dest owner coin exists in
          let (msg, tx, text, compiled, signed, encoded, result) =
            to_base64_v0-sign_v0 sodium laws writes ready (instructions exists) sender blockhash bh
              (seed_with 0 0xab 1 0xcd, sender_seed_size, made) sender_key shapes few e len in
          (
            tx,
            text,
            result,
            rw (coin_read, made, read, found, found', a, b, c, d, parse_endpoint-devnet, got)
                (build_and_send_sends sender_key source dest owner coin blockhash exists seen
                  ∙ sign_and_send_exits sender (instructions exists) blockhash text msg tx defined
                      compiled signed encoded),
          )
