-- ===== src/Demos/SplTokenTransfer.antt =====
-- examples/spl_token_transfer.cpp.
use solana_cpp_sdk.Base.{ℕ, List, [], ◌∷◌, ◌++◌, Bool, true, false, codes, length, if◌then◌else◌}
use solana_cpp_sdk.Base.{Result, ok, err}
use solana_cpp_sdk.Instruction.{Instruction}
use solana_cpp_sdk.Keypair
use solana_cpp_sdk.Keypair.{Keypair}
use solana_cpp_sdk.MessageV0
use solana_cpp_sdk.Programs.ComputeBudget.{set_compute_unit_limit, set_compute_unit_price}
use solana_cpp_sdk.Programs.SplToken.{
  find_associated_token_address, transfer_checked, create_associated_token_account,
}
use solana_cpp_sdk.PublicKey.{PublicKey, from_base58, to_base58}
use solana_cpp_sdk.Rpc.{RpcClient, parse_endpoint, no_proxy}
use solana_cpp_sdk.Rpc.Http.{Network, to_string}
use solana_cpp_sdk.Rpc.Methods.{
  Poll, AccountInfo, confirm_transaction, get_latest_blockhash, get_account_info, send_transaction,
  simulate_transaction,
}
use solana_cpp_sdk.Sodium.{Sodium}
use solana_cpp_sdk.Transaction
use solana_cpp_sdk.Base.{is_exception}
use solana_cpp_sdk.Demos.{
  Run, Session, returned, thrown, ◌>>=◌, ◌>>◌, lift, wait, say, or_exit, or_continue, seed_with,
  em_dash,
}

unfoldable pub fetch_blockhash : Network → RpcClient → Run (List ℕ)
fetch_blockhash network rpc = do
  blockhash ← lift (get_latest_blockhash network rpc)
  say (codes "Blockhash: " ++ blockhash)
  returned blockhash

-- `catch (...) {}`, behind which the flag is still false.
unfoldable pub exists_or_false : Result AccountInfo → Run Bool
exists_or_false (ok info) = returned info.exists
exists_or_false (err e) = if is_exception e then returned false else thrown e

unfoldable pub create_if_missing :
    Bool → PublicKey → PublicKey → PublicKey → PublicKey → Run (List Instruction)
create_if_missing true payer recipient_ata recipient_wallet token_mint = returned []
create_if_missing false payer recipient_ata recipient_wallet token_mint = do
  say (
      codes "Recipient ATA does not exist "
      ++ em_dash (codes " adding createAssociatedTokenAccount"))
  create ← lift (create_associated_token_account payer recipient_ata recipient_wallet token_mint)
  returned (create ∷ [])

unfoldable pub simulate : Network → RpcClient → List ℕ → Run (Unit {0})
simulate network rpc encoded = do
  sim_resp ← lift (simulate_transaction network rpc encoded false)
  say (codes "Simulation response received (check err field for issues)")

unfoldable pub send_and_confirm : Network → List Poll → RpcClient → List ℕ → Run (Unit {0})
send_and_confirm network polls rpc encoded = do
  sig ← lift (send_transaction network rpc encoded)
  say (codes "SPL token transfer sent!")
  say (codes "Signature: " ++ sig)
  say (codes "Explorer:  https://explorer.solana.com/tx/" ++ (sig ++ codes "?cluster=devnet"))
  confirmed ← wait (confirm_transaction rpc sig 30000 polls)
  say (if confirmed then codes "Confirmed!" else codes "Timed out.")

module _ (sodium : Sodium) (session : Session) where
  -- Steps 5 to 7.
  unfoldable pub sign_and_send : RpcClient → Keypair → List Instruction → List ℕ → Run ℕ
  sign_and_send rpc sender instructions blockhash = do
    message ← lift (MessageV0.compile instructions (Keypair.public_key sender) blockhash [])
    say (codes "Static accounts in V0 message: " ++ to_string (length message.static_account_keys))
    tx ← lift (Transaction.sign_v0 sodium (Transaction.make_v0 message) (sender ∷ []))
    encoded ← lift (Transaction.to_base64_v0 tx)
    say (codes "Signed V0 tx (" ++ (to_string (length encoded) ++ codes " B base64)"))
    say (codes "Simulating transaction...")
    or_continue (simulate session.simulation rpc encoded) (codes "simulateTransaction error: ")
    or_exit (send_and_confirm session.sending session.sending_polls rpc encoded)
        (codes "sendTransaction failed: ") (λ done. returned 0)

  -- Step 3, behind the blockhash, and step 4.
  unfoldable pub build_and_send :
      RpcClient → Keypair → PublicKey → PublicKey → PublicKey → PublicKey → List ℕ → Run ℕ
  build_and_send rpc sender sender_ata recipient_ata recipient_wallet token_mint blockhash = do
    recipient_ata_exists ←
        exists_or_false (get_account_info session.compiler session.account rpc recipient_ata)
    set_limit ← lift (set_compute_unit_limit 100000)
    set_price ← lift (set_compute_unit_price 1000)
    create ←
        create_if_missing recipient_ata_exists (Keypair.public_key sender) recipient_ata
          recipient_wallet token_mint
    transfer ←
        lift (
          transfer_checked sender_ata token_mint recipient_ata (Keypair.public_key sender) 1500000
            6)
    sign_and_send rpc sender (set_limit ∷ set_price ∷ (create ++ (transfer ∷ []))) blockhash

  unfoldable pub main : Run ℕ
  main = do
    token_mint ← lift (from_base58 (codes "4zMMC9srt5Ri5X14GAgXhaHii3GnPAEERYPJgZJDncDU"))
    sender ← lift (Keypair.from_seed sodium (seed_with 0 0xab 1 0xcd))
    recipient_wallet ← lift (from_base58 (codes "Fg6PaFpoGXkYsidMpWTK6W2BeZ7FEfcYkg476zPFsLnS"))
    sender_found ←
        lift (find_associated_token_address sodium (Keypair.public_key sender) token_mint)
    recipient_found ← lift (find_associated_token_address sodium recipient_wallet token_mint)
    sender_text ← lift (to_base58 (Keypair.public_key sender))
    say (codes "Sender wallet:    " ++ sender_text)
    sender_ata_text ← lift (to_base58 sender_found.0)
    say (codes "Sender ATA:       " ++ sender_ata_text)
    recipient_text ← lift (to_base58 recipient_wallet)
    say (codes "Recipient wallet: " ++ recipient_text)
    recipient_ata_text ← lift (to_base58 recipient_found.0)
    say (codes "Recipient ATA:    " ++ recipient_ata_text)
    rpc ← lift (parse_endpoint (codes "https://api.devnet.solana.com") no_proxy)
    or_exit (fetch_blockhash session.blockhash rpc) (codes "getLatestBlockhash failed: ")
        (build_and_send rpc sender sender_found.0 recipient_found.0 recipient_wallet token_mint)
