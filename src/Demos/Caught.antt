-- ===== src/Demos/Caught.antt =====
-- examples: the programs whose `main` is one `try` block.
use solana_cpp_sdk.Base.{ℕ, ◌≡◌, false, List, Error, is_exception, Bool-cases, inl, inr, codes}
use mathlib.Core.Path.{subst}
use solana_cpp_sdk.Sodium.{Sodium}
use solana_cpp_sdk.Demos.{Run, Session, returned, thrown, waiting, prints, outcome, or_exit}
use solana_cpp_sdk.Demos.OfflineSign
use solana_cpp_sdk.Demos.TransferSol
use solana_cpp_sdk.Demos.DerivedAddresses

returned_not_thrown : (c : ℕ) (e : Error) → returned c ≡ thrown e → ⊥
returned_not_thrown c e h = cc

same_error : (a b : Error) → ◌≡◌ {A = Run ℕ} (thrown a) (thrown b) → a ≡ b
same_error a b h = cc

waiting_not_thrown : (e : Error) → ◌≡◌ {A = Run ℕ} waiting (thrown e) → ⊥
waiting_not_thrown e h = cc

or_exit_caught :
    (m : Run ℕ) (text : List ℕ) (e : Error)
    → outcome (or_exit m text (λ code. returned code)) ≡ thrown e
    → is_exception e ≡ false
unfolding outcome
or_exit_caught (returned c) text e h = absurd (returned_not_thrown c e h)
or_exit_caught (thrown x) text e h = elim (Bool-cases (is_exception x)) [
  | inl caught ↦ absurd (returned_not_thrown 1 e (rw caught at h))
  | inr not_caught ↦
      subst (λ y. is_exception y ≡ false) (same_error x e (rw not_caught at h)) not_caught
]
or_exit_caught waiting text e h = absurd (waiting_not_thrown e h)
or_exit_caught (prints p m) text e h = or_exit_caught m text e h

module _ (sodium : Sodium) (sol : ℕ → List ℕ) (e : Error) where
  -- No exception leaves transfer_sol: what ends it without a return is undefined behaviour.
  pub transfer_sol_caught :
      (session : Session) (drawn other : List ℕ × List ℕ)
      → outcome (TransferSol.main sodium sol session drawn other) ≡ thrown e
      → is_exception e ≡ false
  unfolding TransferSol.main
  transfer_sol_caught session drawn other h =
      or_exit_caught (TransferSol.transfer_sol sodium sol session drawn other) (codes "Error: ") e h

  pub offline_sign_caught :
      outcome (OfflineSign.main sodium sol) ≡ thrown e → is_exception e ≡ false
  unfolding OfflineSign.main
  offline_sign_caught h = or_exit_caught (OfflineSign.sign_offline sodium sol) (codes "Error: ") e h

  pub derive_addresses_caught :
      outcome (DerivedAddresses.main sodium) ≡ thrown e → is_exception e ≡ false
  unfolding DerivedAddresses.main
  derive_addresses_caught h =
      or_exit_caught (DerivedAddresses.derive_addresses sodium) (codes "Error: ") e h
