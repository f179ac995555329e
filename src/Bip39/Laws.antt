-- ===== src/Bip39/Laws.antt =====
-- src/solana/bip39.cpp: the seed beside the definition in RFC 8018.
use solana_cpp_sdk.Base.{
  ℕ, zero, suc, ◌+◌, List, [], ◌∷◌, ◌++◌, Bool, true, not, take, length, ◌≡◌, refl,
}
use solana_cpp_sdk.Base.{
  ap, ◌∙◌, arith, codes, ok, ◌>>◌, ◌>>=◌, throw_if, sodium_init_failed, append-nil,
}
use solana_cpp_sdk.Base.{sym, get_or, ◌%◌}
use solana_cpp_sdk.Bip39.Bits.{bit, bit-xor_bytes, bit_small}
use solana_cpp_sdk.Bip39.{HmacSodium, xor_bytes, salt_block, mix, derive_block, derive_blocks}
use solana_cpp_sdk.Bip39.{pbkdf2_hmac_sha512, mnemonic_to_seed, mnemonic_to_keypair_seed}

-- libsodium documents an HMAC of 64 bytes.
abbrev pub IsHmac : HmacSodium → Type 0
IsHmac sodium = (key text : List ℕ) → length (sodium.hmacsha512 key text) ≡ 64

-- U_(n + 1): the HMAC applied n times to a first one.
unfoldable pub chain : HmacSodium → List ℕ → List ℕ → ℕ → List ℕ
chain sodium password u zero = u
chain sodium password u (suc n) = sodium.hmacsha512 password (chain sodium password u n)

-- In the first n + 1 of these, how often the digit at place `k` of the byte `i` is 1.
unfoldable pub ones_at : HmacSodium → List ℕ → List ℕ → ℕ → ℕ → ℕ → ℕ
ones_at sodium password u i k zero = bit k (get_or u i 0)
ones_at sodium password u i k (suc n) =
    ones_at sodium password u i k n + bit k (get_or (chain sodium password u (suc n)) i 0)

-- What the loop computes.
unfoldable xor_chain : HmacSodium → List ℕ → List ℕ → ℕ → List ℕ
xor_chain sodium password u zero = u
xor_chain sodium password u (suc n) =
    xor_bytes (xor_chain sodium password u n) (chain sodium password u (suc n))

module _ (sodium : HmacSodium) (password first : List ℕ) where
  step :
      (rounds n : ℕ)
      → mix sodium password rounds
          (chain sodium password first (suc n))
          (xor_chain sodium password first (suc n))
        ≡ xor_chain sodium password first (rounds + suc n)
      → mix sodium password
          (suc rounds)
          (chain sodium password first n)
          (xor_chain sodium password first n)
        ≡ xor_chain sodium password first (rounds + suc n)
  unfolding mix chain xor_chain
  step rounds n h = h

  mix-xor_chain :
      (rounds n : ℕ)
      → mix sodium password rounds
          (chain sodium password first n)
          (xor_chain sodium password first n)
        ≡ xor_chain sodium password first (rounds + n)
  unfolding mix
  mix-xor_chain zero n = ap (xor_chain sodium password first) (omega arith)
  mix-xor_chain (suc rounds) n =
      step rounds n (mix-xor_chain rounds (suc n))
      ∙ ap (xor_chain sodium password first) (omega arith)

length-xor_bytes : (ts us : List ℕ) → length (xor_bytes ts us) ≡ length ts
unfolding xor_bytes
length-xor_bytes [] us = refl
length-xor_bytes (t ∷ ts) [] = refl
length-xor_bytes (t ∷ ts) (u ∷ us) = ap suc (length-xor_bytes ts us)

length-xor_chain :
    (sodium : HmacSodium) (password u : List ℕ) (n : ℕ)
    → length (xor_chain sodium password u n) ≡ length u
unfolding xor_chain
length-xor_chain sodium password u zero = refl
length-xor_chain sodium password u (suc n) =
    length-xor_bytes (xor_chain sodium password u n) (chain sodium password u (suc n))
    ∙ length-xor_chain sodium password u n

take_all : (s : List ℕ) (n : ℕ) → length s ≡ n → take n s ≡ s
take_all [] zero h = refl
take_all [] (suc n) h = absurd (omega arith)
take_all (x ∷ s) zero h = absurd (omega arith)
take_all (x ∷ s) (suc n) h = ap (λ t. x ∷ t) (take_all s n (omega arith))

-- The first HMAC of the one block of a seed.
unfoldable pub first_hmac : HmacSodium → List ℕ → List ℕ → List ℕ
first_hmac sodium mnemonic passphrase =
    sodium.hmacsha512 mnemonic (codes "mnemonic" ++ (passphrase ++ (0 ∷ 0 ∷ 0 ∷ 1 ∷ [])))

one_block :
    (sodium : HmacSodium) (password u : List ℕ)
    → length u ≡ 64
    → take 64 (mix sodium password 2047 u u) ++ [] ≡ xor_chain sodium password u 2047
unfolding chain xor_chain
one_block sodium password u h =
    append-nil (take 64 (mix sodium password 2047 u u))
    ∙ (ap (take 64) (mix-xor_chain sodium password u 2047 0)
        ∙ take_all (xor_chain sodium password u 2047) 64
            (length-xor_chain sodium password u 2047 ∙ h))

when_ready :
    (ready : Bool) (bytes : List ℕ)
    → ready ≡ true
    → (throw_if (not ready) sodium_init_failed >> ok bytes) ≡ ok bytes
when_ready ready bytes r = rw r refl

mnemonic_to_seed-xor_chain :
    (sodium : HmacSodium) (mnemonic passphrase : List ℕ)
    → sodium.ready ≡ true
    → IsHmac sodium
    → mnemonic_to_seed sodium mnemonic passphrase
      ≡ ok (xor_chain sodium mnemonic (first_hmac sodium mnemonic passphrase) 2047)
unfolding mnemonic_to_seed pbkdf2_hmac_sha512 derive_blocks derive_block salt_block first_hmac
mnemonic_to_seed-xor_chain sodium mnemonic passphrase r h =
    when_ready sodium.ready _ r
    ∙ ap ok (
        one_block sodium mnemonic (first_hmac sodium mnemonic passphrase)
          (h mnemonic (codes "mnemonic" ++ (passphrase ++ (0 ∷ 0 ∷ 0 ∷ 1 ∷ [])))))

module _ (sodium : HmacSodium) (hmac : IsHmac sodium) (password u : List ℕ)
    (size : length u ≡ 64) where
  length-chain : (n : ℕ) → length (chain sodium password u n) ≡ 64
  unfolding chain
  length-chain zero = size
  length-chain (suc n) = hmac password (chain sodium password u n)

  bit-xor_chain :
      (i k n : ℕ)
      → bit k (get_or (xor_chain sodium password u n) i 0) ≡ ones_at sodium password u i k n % 2
  unfolding xor_chain ones_at
  bit-xor_chain i k zero = sym (bit_small k (get_or u i 0))
  bit-xor_chain i k (suc n) =
      let same : length (xor_chain sodium password u n) ≡ length (chain sodium password u (suc n)) =
        length-xor_chain sodium password u n ∙ (size ∙ sym (length-chain (suc n))) in
      bit-xor_bytes (xor_chain sodium password u n) (chain sodium password u (suc n)) i k same
      ∙ omega (arith, bit-xor_chain i k n)

-- With libsodium initialised and HMACs of 64 bytes, mnemonicToSeed returns 64 bytes, and each of
-- their binary digits is the parity of the digits at its place in the 2048 HMACs of RFC 8018: the
-- first of the salt, the passphrase and the block number one, each other of the one before it, all
-- keyed with the mnemonic.
pub mnemonic_to_seed-ones_at :
    (sodium : HmacSodium) (mnemonic passphrase : List ℕ)
    → sodium.ready ≡ true
    → IsHmac sodium
    → (seed : List ℕ) × (mnemonic_to_seed sodium mnemonic passphrase ≡ ok seed)
      × (length seed ≡ 64)
      × ((i k : ℕ)
          → bit k (get_or seed i 0)
            ≡ ones_at sodium mnemonic (first_hmac sodium mnemonic passphrase) i k 2047 % 2)
mnemonic_to_seed-ones_at sodium mnemonic passphrase r h =
    let first = first_hmac sodium mnemonic passphrase in
    let size : length first ≡ 64 = unfold first_hmac in h mnemonic _ in
    (
      xor_chain sodium mnemonic first 2047,
      mnemonic_to_seed-xor_chain sodium mnemonic passphrase r h,
      length-xor_chain sodium mnemonic first 2047 ∙ size,
      λ i k. bit-xor_chain sodium h mnemonic first size i k 2047,
    )

keypair_seed-xor_chain :
    (sodium : HmacSodium) (mnemonic passphrase : List ℕ)
    → sodium.ready ≡ true
    → IsHmac sodium
    → mnemonic_to_keypair_seed sodium mnemonic passphrase
      ≡ ok (take 32 (xor_chain sodium mnemonic (first_hmac sodium mnemonic passphrase) 2047))
unfolding mnemonic_to_keypair_seed
keypair_seed-xor_chain sodium mnemonic passphrase r h =
    ap (λ full. full >>= λ s. ok (take 32 s))
      (mnemonic_to_seed-xor_chain sodium mnemonic passphrase r h)
