-- ===== src/Demos/Transferred.antt =====
-- examples/transfer_sol.cpp: what the program sends, and how it ends.
use solana_cpp_sdk.Base.{ℕ, ◌≡◌, refl, arith, sym, ◌∙◌, true, List, [], ◌∷◌, length, ok, some}
use solana_cpp_sdk.Base.{
  All, IsByte, is_exception, Bool-cases, Option-cases, Result-cases, inl, inr,
}
use mathlib.Core.Path.{subst}
use solana_cpp_sdk.Base58
use solana_cpp_sdk.Sodium.{Sodium, IsSodium, WritesBytes}
use solana_cpp_sdk.PublicKey.{IsPublicKey}
use solana_cpp_sdk.PublicKey.Texts.{to_base58-IsPublicKey}
use solana_cpp_sdk.Keypair
use solana_cpp_sdk.Keypair.{Keypair}
use solana_cpp_sdk.Keypair.Bytes.{from_seed-IsPublicKey}
use solana_cpp_sdk.Programs.Shapes.{transfer_of, transfer_lem}
use solana_cpp_sdk.Rpc.Methods.{
  get_latest_blockhash, get_balance, request_airdrop, confirm_transaction, send_transaction,
}
use solana_cpp_sdk.Transaction.{Transaction}
use solana_cpp_sdk.Transaction.EndToEnd.{IsSigned, to_base64-sign}
use solana_cpp_sdk.Demos.{Session, outcome}
use solana_cpp_sdk.Demos.Constants.{devnet, parse_endpoint-devnet}
use solana_cpp_sdk.Demos.Exits.{exit_code}
use solana_cpp_sdk.Demos.TransferSol.{main, transfer_sol, transfer_and_report}

ok-injective : (a b : Keypair) → ok a ≡ ok b → a ≡ b
ok-injective a b e = cc

-- The pair that `crypto_sign_keypair` draws is the pair of some seed.
generate-from_seed :
    (sodium : Sodium) (seed : List ℕ)
    → Keypair.generate sodium (sodium.seed_keypair seed) ≡ Keypair.from_seed sodium seed
unfolding Keypair.generate Keypair.from_seed
generate-from_seed sodium seed = refl

module _ (sodium : Sodium) (sol : ℕ → List ℕ) (session : Session) (laws : IsSodium sodium)
    (writes : WritesBytes sodium) (ready : sodium.ready ≡ true) where
  -- With libsodium initialised and key pairs drawn from two seeds, where the airdrop is granted and
  -- confirmed, the three balances are answered and getLatestBlockhash returns a text that decodes
  -- to 32 bytes, transfer_sol hands a signed legacy transaction to sendTransaction: it stands for
  -- the transfer of 500000000 lamports from the first key to the second, and its first signature is
  -- the sender's and verifies. The program returns 1 if sendTransaction throws an exception, and
  -- else 0, once confirmTransaction is over, confirmed or not.
  pub main_transfers :
      (seed other : List ℕ) (sender receiver : Keypair) (airdrop_sig blockhash bh : List ℕ)
      (before left got : ℕ)
      → length seed ≡ 32
      → All IsByte seed
      → length other ≡ 32
      → All IsByte other
      → Keypair.from_seed sodium seed ≡ ok sender
      → Keypair.from_seed sodium other ≡ ok receiver
      → request_airdrop session.airdrop devnet (Keypair.public_key sender) 2000000000
        ≡ ok airdrop_sig
      → confirm_transaction devnet airdrop_sig 30000 session.airdrop_polls ≡ some true
      → get_balance session.balance devnet (Keypair.public_key sender) ≡ ok before
      → get_latest_blockhash session.blockhash devnet ≡ ok blockhash
      → Base58.decode blockhash ≡ ok bh
      → length bh ≡ 32
      → get_balance session.sender_balance devnet (Keypair.public_key sender) ≡ ok left
      → get_balance session.receiver_balance devnet (Keypair.public_key receiver) ≡ ok got
      → (tx : Transaction) × (text : List ℕ) × IsSigned sodium
          (transfer_of (Keypair.public_key sender) (Keypair.public_key receiver) 500000000 ∷ [])
          sender
          bh
          tx
          text
        × (outcome (main sodium sol session (sodium.seed_keypair seed) (sodium.seed_keypair other))
            ≡ exit_code session.sending session.sending_polls devnet text)
  unfolding main transfer_sol transfer_and_report outcome
  main_transfers seed other sender receiver airdrop_sig blockhash bh before left got n bytes n'
        bytes' made made' granted confirmed held hashed e len kept given =
      let (s, ms, ks) = from_seed-IsPublicKey sodium seed laws writes ready n bytes in
      let (r, mr, kr) = from_seed-IsPublicKey sodium other laws writes ready n' bytes' in
      let key : IsPublicKey (Keypair.public_key sender) =
        subst (λ kp. IsPublicKey (Keypair.public_key kp)) (ok-injective s sender (sym ms ∙ made))
          ks in
      let key' : IsPublicKey (Keypair.public_key receiver) =
        subst (λ kp. IsPublicKey (Keypair.public_key kp)) (ok-injective r receiver (sym mr ∙ made'))
          kr in
      let (_, a) = to_base58-IsPublicKey (Keypair.public_key sender) key in
      let (_, b) = to_base58-IsPublicKey (Keypair.public_key receiver) key' in
      let (built, shape) =
        transfer_lem (Keypair.public_key sender) (Keypair.public_key receiver) 500000000 key key' in
      let (msg, tx, text, compiled, signed, encoded, result) =
        to_base64-sign sodium laws writes ready
          (transfer_of (Keypair.public_key sender) (Keypair.public_key receiver) 500000000 ∷ [])
          sender blockhash bh (seed, n, made) key (shape, tt) (omega arith) e len in
      let generated = generate-from_seed sodium seed ∙ made in
      let generated' = generate-from_seed sodium other ∙ made' in
      (
        tx,
        text,
        result,
        rw
            (
              generated, generated', a, b, parse_endpoint-devnet, granted, confirmed, held, built,
              hashed, compiled, signed, encoded,
            )
            (elim (Result-cases (send_transaction session.sending devnet text)) [
              | inl (x, refused) ↦ elim (Bool-cases (is_exception x)) [
                | inl caught ↦ rw (refused, caught) refl
                | inr not_caught ↦ rw (refused, not_caught) refl
              ]
              | inr (sig, sent) ↦
                  elim (Option-cases (confirm_transaction devnet sig 30000 session.sending_polls)) [
                    | inl still ↦ rw (sent, still) refl
                    | inr (b', over) ↦ elim (Bool-cases b') [
                      | inl yes_ ↦ rw (sent, over, yes_, kept, given) refl
                      | inr no_ ↦ rw (sent, over, no_, kept, given) refl
                    ]
                  ]
            ]),
      )
