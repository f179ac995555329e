-- ===== src/Demos/Sent.antt =====
-- examples/v0_transaction.cpp: what the program sends, and how it ends.
use solana_cpp_sdk.Base.{ℕ, ◌≡◌, refl, arith, true, List, [], ◌∷◌, length, ok, err, Error}
use solana_cpp_sdk.Base.{◌>>=◌ as bind}
use solana_cpp_sdk.Base58
use solana_cpp_sdk.Sodium.{Sodium, IsSodium, WritesBytes}
use solana_cpp_sdk.PublicKey.{PublicKey, from_base58}
use solana_cpp_sdk.PublicKey.Texts.{from_base58-IsPublicKey, to_base58-IsPublicKey}
use solana_cpp_sdk.Instruction.{Instruction}
use solana_cpp_sdk.Keypair
use solana_cpp_sdk.Keypair.{Keypair}
use solana_cpp_sdk.Keypair.Bytes.{from_seed-IsPublicKey}
use solana_cpp_sdk.MessageV0
use solana_cpp_sdk.MessageV0.{MessageV0}
use solana_cpp_sdk.MessageV0.Laws.{compiled-Parts}
use solana_cpp_sdk.MessageV0.Total.{compile_returns}
use solana_cpp_sdk.Programs.ComputeBudget.{compute_budget_program_id}
use solana_cpp_sdk.Programs.Keys.{compute_budget_program_id-IsKey}
use solana_cpp_sdk.Programs.Shapes.{transfer_of, transfer_lem, limit_of, price_of, budget_lem}
use solana_cpp_sdk.Rpc.Methods.{get_latest_blockhash}
use solana_cpp_sdk.Transaction.{TransactionV0, make_v0, sign_v0}
use solana_cpp_sdk.Transaction.EndToEndV0.{IsSigned, to_base64_v0-sign_v0}
use solana_cpp_sdk.Demos.{Session, thrown, outcome, seed_with}
use solana_cpp_sdk.Demos.Constants.{
  wallet_text, wallet-IsKey, sender_seed-IsByte, sender_seed_size, devnet, parse_endpoint-devnet,
}
use solana_cpp_sdk.Demos.Exits.{exit_code, outcome_v0}
use solana_cpp_sdk.Demos.V0Transaction.{main, build_and_send, fetch_blockhash}

-- The three instructions of the program.
abbrev pub sent_instructions : PublicKey → PublicKey → PublicKey → List Instruction
sent_instructions program sender recipient =
    limit_of program 50000 ∷ price_of program 1000 ∷ transfer_of sender recipient 1000000 ∷ []

module _ (sodium : Sodium) (session : Session) (laws : IsSodium sodium)
    (writes : WritesBytes sodium) (ready : sodium.ready ≡ true) where
  -- With libsodium initialised, where getLatestBlockhash returns a text that decodes to 32 bytes,
  -- v0_transaction hands a signed V0 transaction to sendTransaction: it stands for the limit, the
  -- price and the transfer, and its first signature is the sender's and verifies. The program
  -- returns 1 if sendTransaction throws an exception, and else 0, once confirmTransaction is over.
  pub main_sends :
      (blockhash bh : List ℕ)
      → get_latest_blockhash session.blockhash devnet ≡ ok blockhash
      → Base58.decode blockhash ≡ ok bh
      → length bh ≡ 32
      → (sender : Keypair) × (recipient program : PublicKey) × (tx : TransactionV0) × (text : List
          ℕ)
        × (Keypair.from_seed sodium (seed_with 0 0xab 1 0xcd) ≡ ok sender)
        × (from_base58 wallet_text ≡ ok recipient)
        × (compute_budget_program_id ≡ ok program)
        × IsSigned sodium
            (sent_instructions program (Keypair.public_key sender) recipient)
            sender
            bh
            tx
            text
        × (outcome (main sodium session)
            ≡ exit_code session.sending session.sending_polls devnet text)
  unfolding main build_and_send fetch_blockhash outcome
  main_sends blockhash bh got e len =
      let (sender, made, key) =
        from_seed-IsPublicKey sodium (seed_with 0 0xab 1 0xcd) laws writes ready sender_seed_size
          sender_seed-IsByte in
      let (sender_text, shown) = to_base58-IsPublicKey (Keypair.public_key sender) key in
      let (recipient, read, _) = wallet-IsKey in
      let recipient_key = from_base58-IsPublicKey wallet_text recipient read in
      let (program, budget, _) = compute_budget_program_id-IsKey in
      let (limit, price, limit_shape, price_shape) = budget_lem program 50000 1000 budget in
      let (built, shape) =
        transfer_lem (Keypair.public_key sender) recipient 1000000 key recipient_key in
      let (msg, tx, text, compiled, signed, encoded, result) =
        to_base64_v0-sign_v0 sodium laws writes ready
          (sent_instructions program (Keypair.public_key sender) recipient) sender blockhash bh
          (seed_with 0 0xab 1 0xcd, sender_seed_size, made) key
          (limit_shape, (price_shape, (shape, tt))) (omega arith) e len in
      (
        sender,
        recipient,
        program,
        tx,
        text,
        made,
        read,
        budget,
        result,
        rw
            (
              made, shown, read, parse_endpoint-devnet, got, limit, price, built, compiled, signed,
              encoded,
            )
            (outcome_v0 session.sending session.sending_polls devnet text),
      )

  -- With libsodium initialised, where getLatestBlockhash returns a text that is not in base58,
  -- v0_transaction ends with the exception of the decoder, which nothing catches.
  pub main_uncaught :
      (blockhash : List ℕ) (e : Error)
      → get_latest_blockhash session.blockhash devnet ≡ ok blockhash
      → Base58.decode blockhash ≡ err e
      → outcome (main sodium session) ≡ thrown e
  unfolding main build_and_send fetch_blockhash outcome
  main_uncaught blockhash e got refused =
      let (sender, made, key) =
        from_seed-IsPublicKey sodium (seed_with 0 0xab 1 0xcd) laws writes ready sender_seed_size
          sender_seed-IsByte in
      let (sender_text, shown) = to_base58-IsPublicKey (Keypair.public_key sender) key in
      let (recipient, read, _) = wallet-IsKey in
      let recipient_key = from_base58-IsPublicKey wallet_text recipient read in
      let (program, budget, _) = compute_budget_program_id-IsKey in
      let (limit, price, _, _) = budget_lem program 50000 1000 budget in
      let (built, _) =
        transfer_lem (Keypair.public_key sender) recipient 1000000 key recipient_key in
      let instrs = sent_instructions program (Keypair.public_key sender) recipient in
      let (msg, compiled) = compile_returns [] instrs (Keypair.public_key sender) blockhash tt in
      let (_, _, b) = compiled-Parts instrs (Keypair.public_key sender) blockhash [] msg compiled in
      let unsigned : sign_v0 sodium (make_v0 msg) (sender ∷ []) ≡ err e =
        unfold sign_v0 make_v0 MessageV0.serialize in rw (b, refused, bind) in
      rw (made, shown, read, parse_endpoint-devnet, got, limit, price, built, compiled, unsigned)
        refl
