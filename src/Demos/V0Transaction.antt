-- ===== src/Demos/V0Transaction.antt =====
-- examples/v0_transaction.cpp.
use solana_cpp_sdk.Base.{ℕ, List, [], ◌∷◌, ◌++◌, codes, length, if◌then◌else◌}
use solana_cpp_sdk.Keypair
use solana_cpp_sdk.Keypair.{Keypair}
use solana_cpp_sdk.MessageV0
use solana_cpp_sdk.Programs.ComputeBudget.{set_compute_unit_limit, set_compute_unit_price}
use solana_cpp_sdk.Programs.System
use solana_cpp_sdk.PublicKey.{PublicKey, from_base58, to_base58}
use solana_cpp_sdk.Rpc.{RpcClient, parse_endpoint, no_proxy}
use solana_cpp_sdk.Rpc.Http.{Network, to_string}
use solana_cpp_sdk.Rpc.Methods.{Poll, confirm_transaction, get_latest_blockhash, send_transaction}
use solana_cpp_sdk.Sodium.{Sodium}
use solana_cpp_sdk.Transaction
use solana_cpp_sdk.Demos.{Run, Session, returned, ◌>>=◌, ◌>>◌, lift, wait, say, or_exit, seed_with}

-- The `try` block of `getLatestBlockhash`.
unfoldable pub fetch_blockhash : Network → RpcClient → Run (List ℕ)
fetch_blockhash network rpc = do
  blockhash ← lift (get_latest_blockhash network rpc)
  say (codes "Blockhash: " ++ blockhash)
  returned blockhash

-- The `try` block of `sendTransaction`.
unfoldable pub send_and_confirm : Network → List Poll → RpcClient → List ℕ → Run (Unit {0})
send_and_confirm network polls rpc encoded = do
  sig ← lift (send_transaction network rpc encoded)
  say (codes "Transaction sent!")
  say (codes "Signature: " ++ sig)
  say (codes "Explorer:  https://explorer.solana.com/tx/" ++ (sig ++ codes "?cluster=devnet"))
  say (codes "Confirming...")
  confirmed ← wait (confirm_transaction rpc sig 30000 polls)
  say (if confirmed then codes "Confirmed!" else codes "Timed out waiting for confirmation.")

module _ (sodium : Sodium) (session : Session) where
  -- Steps 4 to 7, behind the blockhash.
  unfoldable pub build_and_send : RpcClient → Keypair → PublicKey → List ℕ → Run ℕ
  build_and_send rpc sender recipient blockhash = do
    set_limit ← lift (set_compute_unit_limit 50000)
    set_price ← lift (set_compute_unit_price 1000)
    transfer ← lift (System.transfer (Keypair.public_key sender) recipient 1000000)
    let instructions = set_limit ∷ set_price ∷ transfer ∷ []
    message ← lift (MessageV0.compile instructions (Keypair.public_key sender) blockhash [])
    tx ← lift (Transaction.sign_v0 sodium (Transaction.make_v0 message) (sender ∷ []))
    encoded ← lift (Transaction.to_base64_v0 tx)
    say (codes "Signed V0 tx (" ++ (to_string (length encoded) ++ codes " chars base64)"))
    or_exit (send_and_confirm session.sending session.sending_polls rpc encoded)
        (codes "sendTransaction failed: ") (λ done. returned 0)

  unfoldable pub main : Run ℕ
  main = do
    sender ← lift (Keypair.from_seed sodium (seed_with 0 0xab 1 0xcd))
    sender_text ← lift (to_base58 (Keypair.public_key sender))
    say (codes "Sender:   " ++ sender_text)
    recipient ← lift (from_base58 (codes "Fg6PaFpoGXkYsidMpWTK6W2BeZ7FEfcYkg476zPFsLnS"))
    rpc ← lift (parse_endpoint (codes "https://api.devnet.solana.com") no_proxy)
    or_exit (fetch_blockhash session.blockhash rpc) (codes "getLatestBlockhash failed: ")
        (build_and_send rpc sender recipient)
