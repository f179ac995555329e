-- ===== src/Demos/Exits.antt =====
-- examples: how a program that submits a transaction ends, by what the node's replies are.
use solana_cpp_sdk.Base.{ℕ, ◌≡◌, refl, List, Bool, Option, none, some, if◌then◌else◌}
use solana_cpp_sdk.Base.{Option-cases, Result-cases, Bool-cases, Result, ok, err, inl, inr, codes}
use solana_cpp_sdk.Base.{is_exception}
use solana_cpp_sdk.Demos.{Run, returned, thrown, waiting, outcome, or_exit}
use solana_cpp_sdk.Rpc.{RpcClient}
use solana_cpp_sdk.Rpc.Http.{Network}
use solana_cpp_sdk.Rpc.Methods.{Poll, send_transaction, confirm_transaction}
use solana_cpp_sdk.Demos.V0Transaction
use solana_cpp_sdk.Demos.SplTokenTransfer

abbrev pub exit_of_wait : Option Bool → Run ℕ
exit_of_wait none = waiting
exit_of_wait (some b) = returned 0

-- 1 if the transaction is refused with an exception, and 0 once the wait for it is over.
abbrev pub exit_of : Result (List ℕ) → (List ℕ → Option Bool) → Run ℕ
exit_of (err e) confirmed = if is_exception e then returned 1 else thrown e
exit_of (ok sig) confirmed = exit_of_wait (confirmed sig)

module _ (network : Network) (polls : List Poll) (rpc : RpcClient) (encoded : List ℕ) where
  -- The exit code by the replies to the text that is sent.
  abbrev pub exit_code : Run ℕ
  exit_code =
      exit_of (send_transaction network rpc encoded)
        (λ sig. confirm_transaction rpc sig 30000 polls)

  pub outcome_v0 :
      outcome (
        or_exit
          (V0Transaction.send_and_confirm network polls rpc encoded)
          (codes "sendTransaction failed: ")
          (λ done. returned 0))
      ≡ exit_code
  unfolding V0Transaction.send_and_confirm outcome
  outcome_v0 = elim (Result-cases (send_transaction network rpc encoded)) [
    | inl (e, refused) ↦ elim (Bool-cases (is_exception e)) [
      | inl caught ↦ rw (refused, caught) refl
      | inr not_caught ↦ rw (refused, not_caught) refl
    ]
    | inr (sig, sent) ↦ elim (Option-cases (confirm_transaction rpc sig 30000 polls)) [
      | inl still ↦ rw (sent, still) refl
      | inr (b, over) ↦ rw (sent, over) refl
    ]
  ]

  pub outcome_spl :
      outcome (
        or_exit
          (SplTokenTransfer.send_and_confirm network polls rpc encoded)
          (codes "sendTransaction failed: ")
          (λ done. returned 0))
      ≡ exit_code
  unfolding SplTokenTransfer.send_and_confirm outcome
  outcome_spl = elim (Result-cases (send_transaction network rpc encoded)) [
    | inl (e, refused) ↦ elim (Bool-cases (is_exception e)) [
      | inl caught ↦ rw (refused, caught) refl
      | inr not_caught ↦ rw (refused, not_caught) refl
    ]
    | inr (sig, sent) ↦ elim (Option-cases (confirm_transaction rpc sig 30000 polls)) [
      | inl still ↦ rw (sent, still) refl
      | inr (b, over) ↦ rw (sent, over) refl
    ]
  ]
