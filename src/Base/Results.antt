-- ===== src/Base/Results.antt =====
-- Exceptions as values. Each throw of the source is a constructor of `Error`; `rpc_failed` carries
-- the end of its message.
use Prim.Native.Nat.{ℕ}
use mathlib.Core.List.{List}
use mathlib.Core.Bool.{Bool, true, false}
use mathlib.Core.Logic.{◌⊎◌, inl, inr}
use mathlib.Core.Path.{◌≡◌, refl}

pub data Error : Type 0 where
  invalid_base58_character : Error
  invalid_public_key_input : Error
  invalid_public_key_length : Error
  seed_too_long : Error
  seed_exceeds : Error
  on_curve : Error
  no_valid_pda : Error
  invalid_blockhash_length : Error
  account_not_found : Error
  no_signers : Error
  sodium_init_failed : Error
  length_error : Error
  invalid_argument : Error
  out_of_range : Error
  dns_failed : Error
  socket_failed : Error
  connect_failed : Error
  send_failed : Error
  malformed_response : Error
  tls_failed : Error
  rpc_failed : List ℕ → Error
  undefined_behaviour : Error

-- What `catch (const std::runtime_error &)` takes: `std::invalid_argument`, `std::out_of_range` and
-- `std::length_error` are logic errors, and `undefined_behaviour`, such as an access outside a
-- vector or a loop without effects that does not end, is no exception at all.
abbrev pub is_runtime_error : Error → Bool
is_runtime_error invalid_base58_character = false
is_runtime_error length_error = false
is_runtime_error invalid_argument = false
is_runtime_error out_of_range = false
is_runtime_error undefined_behaviour = false
is_runtime_error _ = true

-- What `catch (const std::exception &)` takes.
abbrev pub is_exception : Error → Bool
is_exception undefined_behaviour = false
is_exception _ = true

-- What a call leaves its caller with: what it throws, or what it returns.
pub data Result {α} (A : Type α) : Type α where
  err : Error → Result A
  ok : A → Result A

abbrev pub throw_if : Bool → Error → Result (Unit {0})
throw_if false thrown = ok tt
throw_if true thrown = err thrown

infixl 5 ◌>>◌
abbrev pub ◌>>◌ {β} : {B : Type β} → Result (Unit {0}) → Result B → Result B
err thrown >> next = err thrown
ok done >> next = next

infixl 5 ◌>>=◌
abbrev pub ◌>>=◌ {α β} : {A : Type α} {B : Type β} (r : Result A) (next : A → Result B) → Result B
err thrown >>= next = err thrown
ok value >>= next = next value

-- A call throws or returns.
pub Result-cases {α} :
    {A : Type α} (r : Result A) → ((e : Error) × (r ≡ err e)) ⊎ ((a : A) × (r ≡ ok a))
Result-cases (err e) = inl (e, refl)
Result-cases (ok a) = inr (a, refl)
