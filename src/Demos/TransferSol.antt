-- ===== src/Demos/TransferSol.antt =====
-- examples/transfer_sol.cpp. The two key pairs that libsodium draws are arguments.
use solana_cpp_sdk.Base.{ℕ, List, [], ◌∷◌, ◌++◌, codes, if◌then◌else◌}
use solana_cpp_sdk.Keypair
use solana_cpp_sdk.Keypair.{Keypair}
use solana_cpp_sdk.Message
use solana_cpp_sdk.Programs.System
use solana_cpp_sdk.PublicKey.{to_base58}
use solana_cpp_sdk.Rpc.{RpcClient, parse_endpoint, no_proxy}
use solana_cpp_sdk.Rpc.Methods.{
  request_airdrop, confirm_transaction, get_balance, get_latest_blockhash, send_transaction,
}
use solana_cpp_sdk.Sodium.{Sodium}
use solana_cpp_sdk.Transaction
use solana_cpp_sdk.Demos.{
  Run, Session, returned, ◌>>=◌, ◌>>◌, lift, wait, say, complain, or_exit, em_dash,
}

-- `sol` is what `operator<<` writes for a number of lamports divided by 1e9, as a `double`.
module _ (sodium : Sodium) (sol : ℕ → List ℕ) (session : Session) where
  -- Steps 4 to 6 of `main`, behind the airdrop.
  unfoldable pub transfer_and_report : RpcClient → Keypair → Keypair → Run ℕ
  transfer_and_report rpc sender receiver = do
    balance ← lift (get_balance session.balance rpc (Keypair.public_key sender))
    say (codes "Sender balance: " ++ (sol balance ++ codes " SOL"))
    say []
    let transfer_amount : ℕ = 500000000
    say (codes "Transferring 0.5 SOL to receiver...")
    transfer_ix ←
        lift (
          System.transfer (Keypair.public_key sender) (Keypair.public_key receiver) transfer_amount)
    blockhash ← lift (get_latest_blockhash session.blockhash rpc)
    say (codes "Blockhash: " ++ blockhash)
    message ← lift (Message.compile (transfer_ix ∷ []) (Keypair.public_key sender) blockhash)
    tx ← lift (Transaction.sign sodium (Transaction.make message) (sender ∷ []))
    encoded ← lift (Transaction.to_base64 tx)
    tx_sig ← lift (send_transaction session.sending rpc encoded)
    say (codes "Transaction sent!")
    say (codes "Signature: " ++ tx_sig)
    say (codes "Explorer:  https://explorer.solana.com/tx/" ++ (tx_sig ++ codes "?cluster=devnet"))
    say (codes "Waiting for confirmation...")
    confirmed ← wait (confirm_transaction rpc tx_sig 30000 session.sending_polls)
    if confirmed
        then say (codes "Transaction confirmed!")
        else complain (codes "Confirmation timed out (tx may still confirm later)")
    say []
    say (codes "Final balances:")
    left ← lift (get_balance session.sender_balance rpc (Keypair.public_key sender))
    say (codes "  Sender:   " ++ (sol left ++ codes " SOL"))
    got ← lift (get_balance session.receiver_balance rpc (Keypair.public_key receiver))
    say (codes "  Receiver: " ++ (sol got ++ codes " SOL"))
    say []
    say (codes "Done!")
    returned 0

  -- The `try` block of `main`.
  unfoldable pub transfer_sol : List ℕ × List ℕ → List ℕ × List ℕ → Run ℕ
  transfer_sol first_drawn second_drawn = do
    say (codes "=== Solana C++ SDK " ++ em_dash (codes " SOL Transfer Example ==="))
    say []
    sender ← lift (Keypair.generate sodium first_drawn)
    receiver ← lift (Keypair.generate sodium second_drawn)
    sender_text ← lift (to_base58 (Keypair.public_key sender))
    say (codes "Sender:   " ++ sender_text)
    receiver_text ← lift (to_base58 (Keypair.public_key receiver))
    say (codes "Receiver: " ++ receiver_text)
    say []
    rpc ← lift (parse_endpoint (codes "https://api.devnet.solana.com") no_proxy)
    say (codes "Connected to Solana devnet")
    let airdrop_amount : ℕ = 2000000000
    say (codes "Requesting airdrop of 2 SOL...")
    airdrop_sig ←
        lift (request_airdrop session.airdrop rpc (Keypair.public_key sender) airdrop_amount)
    say (codes "Airdrop tx: " ++ airdrop_sig)
    say (codes "Waiting for airdrop confirmation...")
    confirmed ← wait (confirm_transaction rpc airdrop_sig 30000 session.airdrop_polls)
    if confirmed
        then (say (codes "Airdrop confirmed!") >> transfer_and_report rpc sender receiver)
        else (complain (codes "Airdrop confirmation timed out") >> returned 1)

  unfoldable pub main : List ℕ × List ℕ → List ℕ × List ℕ → Run ℕ
  main first_drawn second_drawn =
      or_exit (transfer_sol first_drawn second_drawn) (codes "Error: ") (λ code. returned code)
