-- ===== src/Demos.antt =====
-- examples: the programs that use the SDK. A run is what a program prints, in order, and how it
-- ends; each call of the client has its own network, and `Session` holds them.
pub mod OfflineSign
pub mod TransferSol
pub mod V0Transaction
pub mod SplTokenTransfer
pub mod DerivedAddresses
pub mod Constants
pub mod Exits
pub mod Signed
pub mod Sent
pub mod TokenInstructions
pub mod TokenSent
pub mod Transferred
pub mod Caught
pub mod Derived
use solana_cpp_sdk.Base.{
  ℕ, zero, suc, ◌+◌, ◌/◌, ◌%◌, List, [], ◌∷◌, ◌++◌, Bool, true, false, if◌then◌else◌,
}
use solana_cpp_sdk.Base.{Option, none, some, codes, get_elem?, ltb, set, replicate}
use solana_cpp_sdk.Base.{Error, Result, ok, err, undefined_behaviour, is_exception}
use solana_cpp_sdk.Base64.{Compiler}
use solana_cpp_sdk.Rpc.Http.{Network}
use solana_cpp_sdk.Rpc.Methods.{Poll}

-- A line on `std::cout` or on `std::cerr`, or a line on `std::cerr` that ends in `e.what()`.
pub data Printed : Type 0 where
  out : List ℕ → Printed
  note : List ℕ → Printed
  failure : List ℕ → Error → Printed

-- A run returns, ends with an exception that nothing catches or with undefined behaviour, or comes
-- to no end in `confirmTransaction`: it still waits behind the last round, or a round is undefined.
pub data Run {ℓ} (A : Type ℓ) : Type ℓ where
  returned : A → Run A
  thrown : Error → Run A
  waiting : Run A
  prints : Printed → Run A → Run A

infixl 5 ◌>>=◌
abbrev pub ◌>>=◌ {ℓ κ} : {A : Type ℓ} {B : Type κ} (m : Run A) (next : A → Run B) → Run B
returned a >>= next = next a
thrown e >>= next = thrown e
waiting >>= next = waiting
prints p m >>= next = prints p (m >>= next)

infixl 5 ◌>>◌
abbrev pub ◌>>◌ {ℓ} : {B : Type ℓ} → Run (Unit {0}) → Run B → Run B
m >> next = m >>= λ done. next

-- A call of the SDK inside the program.
abbrev pub lift {ℓ} : {A : Type ℓ} → Result A → Run A
lift (ok a) = returned a
lift (err e) = thrown e

-- A call of `confirmTransaction`.
abbrev pub wait : Option Bool → Run Bool
wait none = waiting
wait (some b) = returned b

-- A line: `std::cout << ... << std::endl`. It is printed whole, once its parts are computed.
abbrev pub say : List ℕ → Run (Unit {0})
say line = prints (out line) (returned tt)

abbrev pub complain : List ℕ → Run (Unit {0})
complain line = prints (note line) (returned tt)

-- The three bytes of a long dash in UTF-8.
abbrev pub em_dash : List ℕ → List ℕ
em_dash rest = 0xe2 ∷ 0x80 ∷ 0x94 ∷ rest

-- `try { m } catch (const std::exception &e) { std::cerr << text << e.what(); return 1; }`, and what
-- follows the handler.
abbrev pub or_exit {ℓ} : {A : Type ℓ} (m : Run A) (text : List ℕ) (next : A → Run ℕ) → Run ℕ
or_exit (returned a) text next = next a
or_exit (thrown e) text next =
    if is_exception e then prints (failure text e) (returned 1) else thrown e
or_exit waiting text next = waiting
or_exit (prints p m) text next = prints p (or_exit m text next)

-- The same with a handler that only prints.
abbrev pub or_continue : (m : Run (Unit {0})) (text : List ℕ) → Run (Unit {0})
or_continue (returned a) text = returned a
or_continue (thrown e) text =
    if is_exception e then prints (failure text e) (returned tt) else thrown e
or_continue waiting text = waiting
or_continue (prints p m) text = prints p (or_continue m text)

-- What each call of a program meets, and what the compiler makes of signed shifts.
pub record Session : Type 0 where
  pub compiler : Compiler
  pub airdrop : Network
  pub airdrop_polls : List Poll
  pub balance : Network
  pub blockhash : Network
  pub account : Network
  pub simulation : Network
  pub sending : Network
  pub sending_polls : List Poll
  pub sender_balance : Network
  pub receiver_balance : Network

abbrev pub hex_digit : ℕ → ℕ
hex_digit n = if ltb n 10 then 48 + n else 87 + n

-- `%02x` of the first `n` bytes from the `i`-th on; an array of 64 bytes has them.
unfoldable pub hex_from : ℕ → ℕ → List ℕ → Result (List ℕ)
hex_from zero i bytes = ok []
hex_from (suc n) i bytes =
    let rest = hex_from n (i + 1) bytes in
    elim (get_elem? bytes i) [
      | none ↦ err undefined_behaviour
      | some b ↦ elim rest [
        | err e ↦ err e
        | ok text ↦ ok (hex_digit (b / 16) ∷ hex_digit (b % 16) ∷ text)
      ]
    ]

-- `tx.signatures()[0]`
unfoldable pub first_signature : List (List ℕ) → Result (List ℕ)
first_signature [] = err undefined_behaviour
first_signature (s ∷ signatures) = ok s

-- `std::array<uint8_t, 32> senderSeed{}` with two bytes set.
unfoldable pub seed_with : ℕ → ℕ → ℕ → ℕ → List ℕ
seed_with i a j b = set (set (replicate 32 0) i a) j b

-- The outcome of a run, without what it prints.
unfoldable pub outcome {ℓ} : {A : Type ℓ} → Run A → Run A
outcome (returned a) = returned a
outcome (thrown e) = thrown e
outcome waiting = waiting
outcome (prints p m) = outcome m

-- The lines that a run prints, in their order.
unfoldable pub printed {ℓ} : {A : Type ℓ} → Run A → List Printed
printed (returned a) = []
printed (thrown e) = []
printed waiting = []
printed (prints p m) = p ∷ printed m
