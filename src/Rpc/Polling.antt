-- ===== src/Rpc/Polling.antt =====
-- src/solana/rpc_client.cpp: when `confirmTransaction` comes to an end, and with what.
use solana_cpp_sdk.Base.{
  ℕ, zero, suc, ◌<◌, ◌≤◌, List, [], ◌∷◌, true, false, ◌≡◌, ◌⊎◌, inl, inr, refl, arith, sym, ◌∙◌,
  leb→le,
}
use mathlib.Core.Path.{subst}
use solana_cpp_sdk.Base.{
  Option, none, some, u32, get_elem?, leb, le→leb, Bool, Bool-cases, Option-cases,
}
use solana_cpp_sdk.Rpc.{RpcClient}
use solana_cpp_sdk.Rpc.Methods.{Poll, confirm_transaction, poll_status}

some_injective : (p q : Poll) → some p ≡ some q → p ≡ q
some_injective p q e = cc

module _ (client : RpcClient) (signature : List ℕ) (timeout_ms : ℕ) where
  -- A round before the given one, in time, in which the request for the status had this outcome.
  abbrev pub HasRoundBefore : Option Bool → List Poll → ℕ → Type 0
  HasRoundBefore status polls i =
      (k : ℕ) × (poll : Poll) × ((k < i)
        × ((get_elem? polls k ≡ some poll)
            × ((u32 poll.elapsed < timeout_ms)
                × (poll_status client signature poll.network ≡ status))))

  abbrev pub Ends : List Poll → ℕ → Type 0
  Ends polls i =
      (confirm_transaction client signature timeout_ms polls ≡ some false)
      ⊎ ((confirm_transaction client signature timeout_ms polls ≡ some true)
          × HasRoundBefore (some true) polls i)
      ⊎ ((confirm_transaction client signature timeout_ms polls ≡ none)
          × HasRoundBefore none polls i)

  timed_out :
      (poll : Poll) (polls : List Poll)
      → timeout_ms ≤ u32 poll.elapsed
      → confirm_transaction client signature timeout_ms (poll ∷ polls) ≡ some false
  unfolding confirm_transaction
  timed_out poll polls h =
      let late : leb timeout_ms (u32 poll.elapsed) ≡ true =
        le→leb timeout_ms (u32 poll.elapsed) h in
      rw late refl

  confirmed :
      (poll : Poll) (polls : List Poll)
      → leb timeout_ms (u32 poll.elapsed) ≡ false
      → poll_status client signature poll.network ≡ some true
      → confirm_transaction client signature timeout_ms (poll ∷ polls) ≡ some true
  unfolding confirm_transaction
  confirmed poll polls h e = rw (h, e) refl

  undefined :
      (poll : Poll) (polls : List Poll)
      → leb timeout_ms (u32 poll.elapsed) ≡ false
      → poll_status client signature poll.network ≡ none
      → confirm_transaction client signature timeout_ms (poll ∷ polls) ≡ none
  unfolding confirm_transaction
  undefined poll polls h e = rw (h, e) refl

  goes_on :
      (poll : Poll) (polls : List Poll)
      → leb timeout_ms (u32 poll.elapsed) ≡ false
      → poll_status client signature poll.network ≡ some false
      → confirm_transaction client signature timeout_ms (poll ∷ polls)
        ≡ confirm_transaction client signature timeout_ms polls
  unfolding confirm_transaction
  goes_on poll polls h e = rw (confirm_transaction, h, e) refl

  in_time : (n : ℕ) → leb timeout_ms n ≡ false → n < timeout_ms
  in_time n h = ground arith

  later :
      (poll : Poll) (polls : List Poll) (i : ℕ)
      → confirm_transaction client signature timeout_ms (poll ∷ polls)
        ≡ confirm_transaction client signature timeout_ms polls
      → Ends polls i
      → Ends (poll ∷ polls) (suc i)
  later poll polls i e (inl f) = inl (e ∙ f)
  later poll polls i e (inr (inl (f, (k, p, (n, g))))) =
      inr (inl (e ∙ f, (suc k, p, (omega arith, g))))
  later poll polls i e (inr (inr (f, (k, p, (n, g))))) =
      inr (inr (e ∙ f, (suc k, p, (omega arith, g))))

  -- If in some round the elapsed milliseconds modulo 2 ^ 32 have reached the timeout,
  -- confirmTransaction has returned by then: false, or true, and then an earlier round was in
  -- time and found the signature confirmed; or an earlier round, in time, had undefined behaviour.
  pub confirm_transaction-Ends :
      (polls : List Poll) (i : ℕ) (poll : Poll)
      → get_elem? polls i ≡ some poll
      → timeout_ms ≤ u32 poll.elapsed
      → Ends polls i
  confirm_transaction-Ends [] i poll e h = cc
  confirm_transaction-Ends (p ∷ polls) zero poll e h = inl (
      timed_out p polls (subst (λ q. timeout_ms ≤ u32 q.elapsed) (sym (some_injective p poll e)) h))
  confirm_transaction-Ends (p ∷ polls) (suc i) poll e h =
      elim (Bool-cases (leb timeout_ms (u32 p.elapsed))) [
        | inl late ↦ inl (timed_out p polls (leb→le timeout_ms (u32 p.elapsed) late))
        | inr early ↦ elim (Option-cases (poll_status client signature p.network)) [
          | inl q ↦ inr (
              inr (
                undefined p polls early q,
                (0, p, (omega arith, (refl, (in_time (u32 p.elapsed) early, q)))),
              ))
          | inr (true, q) ↦ inr (
              inl (
                confirmed p polls early q,
                (0, p, (omega arith, (refl, (in_time (u32 p.elapsed) early, q)))),
              ))
          | inr (false, q) ↦
              later p polls i (goes_on p polls early q) (confirm_transaction-Ends polls i poll e h)
        ]
      ]
