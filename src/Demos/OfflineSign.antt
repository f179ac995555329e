-- ===== src/Demos/OfflineSign.antt =====
-- examples/offline_sign.cpp.
use solana_cpp_sdk.Base.{ℕ, List, [], ◌∷◌, ◌++◌, codes, length}
use solana_cpp_sdk.Keypair
use solana_cpp_sdk.Message
use solana_cpp_sdk.Programs.System
use solana_cpp_sdk.PublicKey.{from_base58, to_base58}
use solana_cpp_sdk.Rpc.Http.{to_string}
use solana_cpp_sdk.Sodium.{Sodium}
use solana_cpp_sdk.Transaction
use solana_cpp_sdk.Demos.{
  Run, returned, ◌>>=◌, ◌>>◌, lift, say, or_exit, hex_from, first_signature, seed_with, em_dash,
}

unfoldable pub simulate_blockhash_from_gateway : List ℕ
simulate_blockhash_from_gateway = codes "11111111111111111111111111111111"

-- `sol` is what `operator<<` writes for a number of lamports divided by 1e9, as a `double`.
module _ (sodium : Sodium) (sol : ℕ → List ℕ) where
  -- The `try` block of `main`.
  unfoldable pub sign_offline : Run ℕ
  sign_offline = do
    say (codes "=== Solana C++ SDK " ++ em_dash (codes " Offline Signing Example ==="))
    say []
    say (codes "This demonstrates offline transaction signing")
    say (codes "suitable for microcontrollers (ESP32, STM32, etc.)")
    say []
    signer ← lift (Keypair.from_seed sodium (seed_with 0 0x01 31 0xff))
    signer_text ← lift (to_base58 (Keypair.public_key signer))
    say (codes "Signer public key: " ++ signer_text)
    recipient ← lift (from_base58 (codes "So11111111111111111111111111111111111111112"))
    recipient_text ← lift (to_base58 recipient)
    say (codes "Recipient: " ++ recipient_text)
    let blockhash = simulate_blockhash_from_gateway
    say (codes "Blockhash: " ++ blockhash)
    say []
    let lamports : ℕ = 100000
    transfer_ix ← lift (System.transfer (Keypair.public_key signer) recipient lamports)
    say (
        codes "Transfer amount: "
        ++ (to_string lamports ++ (codes " lamports (" ++ (sol lamports ++ codes " SOL)"))))
    msg ← lift (Message.compile (transfer_ix ∷ []) (Keypair.public_key signer) blockhash)
    tx ← lift (Transaction.sign sodium (Transaction.make msg) (signer ∷ []))
    base64_tx ← lift (Transaction.to_base64 tx)
    say []
    say (codes "=== Signed Transaction (base64) ===")
    say base64_tx
    say []
    raw_bytes ← lift (Transaction.serialize tx)
    say (codes "Raw transaction size: " ++ (to_string (length raw_bytes) ++ codes " bytes"))
    signature ← lift (first_signature tx.signatures)
    start ← lift (hex_from 8 0 signature)
    say (codes "First signature: " ++ (start ++ codes "..."))
    say []
    say (codes "The gateway server would now submit this transaction")
    say (codes "to the Solana RPC via sendTransaction().")
    returned 0

  unfoldable pub main : Run ℕ
  main = or_exit sign_offline (codes "Error: ") (λ code. returned code)
