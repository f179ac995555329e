-- ===== src/Transaction/Laws.antt =====
-- What `sign` puts into which slot.
use solana_cpp_sdk.Base.{
  ℕ, zero, suc, ◌<◌, ◌≡◌, refl, arith, ap, ◌∙◌, sym, List, [], ◌∷◌, true, false,
}
use solana_cpp_sdk.Base.{
  some, get_elem?, length, All, All-get_elem?, if◌then◌else◌, Bool-cases, inl, inr,
}
use solana_cpp_sdk.Base.{ok, ◌>>=◌, ◌⊎◌}
use solana_cpp_sdk.Sodium.{Sodium, IsSodium}
use solana_cpp_sdk.PublicKey.{PublicKey, equals, from_array}
use mathlib.Core.Path.{subst}
use solana_cpp_sdk.Base.{get_elem?-some}
use solana_cpp_sdk.PublicKey.Laws.{equals_iff}
use solana_cpp_sdk.Keypair
use solana_cpp_sdk.Keypair.{Keypair}
use solana_cpp_sdk.Keypair.Laws.{from_seed_lem}
use solana_cpp_sdk.Accounts.Laws.{Distinct}
use solana_cpp_sdk.Message
use solana_cpp_sdk.Transaction.{Transaction, place, sign_all, sign}

ok-injective : (a b : Keypair) → ok a ≡ ok b → a ≡ b
ok-injective a b e = cc

pub length-place :
    (ks : List PublicKey) (ss : List (List ℕ)) (pk : PublicKey) (s : List ℕ)
    → length (place ks ss pk s) ≡ length ss
unfolding place
length-place [] ss pk s = refl
length-place (k ∷ ks) [] pk s = refl
length-place (k ∷ ks) (x ∷ ss) pk s = ground (arith, length-place ks ss pk s)

-- Where the keys are distinct, a signature goes to the slot of its key and to no other.
place_slot :
    (ks : List PublicKey) (ss : List (List ℕ)) (pk k : PublicKey) (s old : List ℕ) (i : ℕ)
    → Distinct ks
    → get_elem? ks i ≡ some k
    → get_elem? ss i ≡ some old
    → get_elem? (place ks ss pk s) i ≡ some (if equals k pk then s else old)
unfolding place
place_slot [] ss pk k s old i d hk hs = cc
place_slot (x ∷ ks) [] pk k s old i d hk hs = cc
place_slot (x ∷ ks) (y ∷ ss) pk k s old zero d hk hs =
    let key : x ≡ k = cc in
    let slot : y ≡ old = cc in
    rw (place, key, slot) (elim (Bool-cases (equals k pk)) [ inl e ↦ rw e | inr e ↦ rw e ])
place_slot (x ∷ ks) (y ∷ ss) pk k s old (suc i) d hk hs = elim (Bool-cases (equals x pk)) [
  | inl e ↦
      let ne : equals k pk ≡ false = ground (
        arith,
        equals_iff x pk,
        equals_iff k pk,
        equals_iff x k,
        All-get_elem? (λ k'. equals x k' ≡ false) ks i k d.0 hk,
      ) in
      rw (place, e, ne) hs
  | inr e ↦ rw (place, e) (place_slot ks ss pk k s old i d.1 hk hs)
]

module _ (sodium : Sodium) where
  -- The signature of the last signer that has the key, or else the one that was there.
  abbrev pub last_signature : List ℕ → PublicKey → List ℕ → List Keypair → List ℕ
  last_signature bytes k old [] = old
  last_signature bytes k old (kp ∷ signers) =
      last_signature bytes k
        (if equals k (Keypair.public_key kp) then Keypair.sign sodium kp bytes else old) signers

  pub sign_all_slot :
      (ks : List PublicKey) (bytes : List ℕ) (ss : List (List ℕ)) (signers : List Keypair)
      (k : PublicKey) (old : List ℕ) (i : ℕ)
      → Distinct ks
      → get_elem? ks i ≡ some k
      → get_elem? ss i ≡ some old
      → get_elem? (sign_all sodium ks bytes ss signers) i
        ≡ some (last_signature bytes k old signers)
  unfolding sign_all
  sign_all_slot ks bytes ss [] k old i d hk hs = hs
  sign_all_slot ks bytes ss (kp ∷ signers) k old i d hk hs =
      sign_all_slot ks bytes (place ks ss (Keypair.public_key kp) (Keypair.sign sodium kp bytes))
        signers k (if equals k (Keypair.public_key kp) then Keypair.sign sodium kp bytes else old) i
        d hk
        (place_slot ks ss (Keypair.public_key kp) k (Keypair.sign sodium kp bytes) old i d hk hs)

  pub length-sign_all :
      (ks : List PublicKey) (bytes : List ℕ) (ss : List (List ℕ)) (signers : List Keypair)
      → length (sign_all sodium ks bytes ss signers) ≡ length ss
  unfolding sign_all
  length-sign_all ks bytes ss [] = refl
  length-sign_all ks bytes ss (kp ∷ signers) =
      length-sign_all ks bytes (place ks ss (Keypair.public_key kp) (Keypair.sign sodium kp bytes))
        signers
      ∙ length-place ks ss (Keypair.public_key kp) (Keypair.sign sodium kp bytes)

  -- Where the keys of the message are distinct, `sign` keeps the number of signatures, and in the
  -- slot of each key stands the signature, over the serialized message, of the last signer that
  -- has the key; the slot of a key that no signer has stays as it was. The message serializes, and
  -- there is a signer.
  pub sign_slots :
      (tx : Transaction) (kp : Keypair) (signers : List Keypair) (bytes : List ℕ)
      → Message.serialize tx.message ≡ ok bytes
      → Distinct tx.message.account_keys
      → (i : ℕ) (k : PublicKey) (old : List ℕ) → get_elem? tx.message.account_keys i ≡ some k
      → get_elem? tx.signatures i ≡ some old
      → (tx' : Transaction) × (sign sodium tx (kp ∷ signers) ≡ ok tx')
        × (length tx'.signatures ≡ length tx.signatures)
        × (get_elem? tx'.signatures i ≡ some (last_signature bytes k old (kp ∷ signers)))
  unfolding sign
  sign_slots tx kp signers bytes e d i k old hk hs = (
    record tx {
      signatures = sign_all sodium tx.message.account_keys bytes tx.signatures (kp ∷ signers);
    },
    rw (e, ◌>>=◌),
    length-sign_all tx.message.account_keys bytes tx.signatures (kp ∷ signers),
    sign_all_slot tx.message.account_keys bytes tx.signatures (kp ∷ signers) k old i d hk hs,
  )

  -- The key pair was made from a seed.
  abbrev pub IsFromSeed : Keypair → Type 0
  IsFromSeed kp = (seed : List ℕ) × (length seed ≡ 32) × (Keypair.from_seed sodium seed ≡ ok kp)

  module _ (laws : IsSodium sodium) (ready : sodium.ready ≡ true) where
    pub own_signature :
        (kp : Keypair) (bytes : List ℕ)
        → IsFromSeed kp
        → sodium.verify_detached (Keypair.sign sodium kp bytes) bytes (Keypair.public_key kp).bytes
          ≡ true
    unfolding Keypair.verify Keypair.public_key from_array
    own_signature kp bytes (seed, len, made) =
        let (kp', e, _, _, verifies) = from_seed_lem sodium seed laws ready len in
        let same : kp' ≡ kp = ok-injective kp' kp (sym e ∙ made) in
        subst (λ x. Keypair.verify sodium x bytes (Keypair.sign sodium x bytes) ≡ true) same
          (verifies bytes)

    later :
        (kp : Keypair) (signers : List Keypair) (k : PublicKey) (old bytes : List ℕ)
        → equals k (Keypair.public_key kp) ≡ false
        → (sodium.verify_detached old bytes k.bytes ≡ true)
          ⊎ ((j : ℕ) × (kp' : Keypair) × (get_elem? (kp ∷ signers) j ≡ some kp')
              × (Keypair.public_key kp' ≡ k))
        → (sodium.verify_detached old bytes k.bytes ≡ true)
          ⊎ ((j : ℕ) × (kp' : Keypair) × (get_elem? signers j ≡ some kp')
              × (Keypair.public_key kp' ≡ k))
    later kp signers k old bytes ne (inl v) = inl v
    later kp signers k old bytes ne (inr (zero, kp', there, key)) =
        let same : kp ≡ kp' = cc in
        let self : equals k (Keypair.public_key kp) ≡ true =
          (equals_iff k (Keypair.public_key kp)).1 (sym key ∙ ap Keypair.public_key (sym same)) in
        cc
    later kp signers k old bytes ne (inr (suc j, kp', there, key)) = inr (j, kp', there, key)

    last_signature-verifies :
        (bytes : List ℕ) (k : PublicKey) (old : List ℕ) (signers : List Keypair)
        → All IsFromSeed signers
        → (sodium.verify_detached old bytes k.bytes ≡ true)
          ⊎ ((j : ℕ) × (kp : Keypair) × (get_elem? signers j ≡ some kp)
              × (Keypair.public_key kp ≡ k))
        → sodium.verify_detached (last_signature bytes k old signers) bytes k.bytes ≡ true
    last_signature-verifies bytes k old [] from (inl v) = v
    last_signature-verifies bytes k old [] from (inr (j, kp, there, _)) = cc
    last_signature-verifies bytes k old (kp ∷ signers) from has =
        elim (Bool-cases (equals k (Keypair.public_key kp))) [
          | inl e ↦
              let key : Keypair.public_key kp ≡ k =
                sym ((equals_iff k (Keypair.public_key kp)).0 e) in
              rw e (
                last_signature-verifies bytes k (Keypair.sign sodium kp bytes) signers from.1 (
                  inl (
                    subst
                      (λ x.
                        sodium.verify_detached (Keypair.sign sodium kp bytes) bytes x.bytes ≡ true)
                      key (own_signature kp bytes from.0))))
          | inr e ↦ rw e (
              last_signature-verifies bytes k old signers from.1
                (later kp signers k old bytes e has))
        ]

    -- Signing with all signers of a legacy message leaves in the slot of each signer's key a
    -- signature that libsodium verifies: here the message serializes, libsodium is initialised, the
    -- signers were made from seeds, the keys of the message are distinct, and the key has a slot.
    pub sign_verifies :
        (tx : Transaction) (first : Keypair) (signers : List Keypair) (bytes : List ℕ)
        → Message.serialize tx.message ≡ ok bytes
        → Distinct tx.message.account_keys
        → All IsFromSeed (first ∷ signers)
        → (i j : ℕ) (kp : Keypair)
        → get_elem? tx.message.account_keys i ≡ some (Keypair.public_key kp)
        → i < length tx.signatures
        → get_elem? (first ∷ signers) j ≡ some kp
        → (tx' : Transaction) × (sign sodium tx (first ∷ signers) ≡ ok tx')
          × ((s : List ℕ) × (get_elem? tx'.signatures i ≡ some s)
              × (sodium.verify_detached s bytes (Keypair.public_key kp).bytes ≡ true))
    sign_verifies tx first signers bytes e d from i j kp hk below hj =
        let (old, there) = get_elem?-some tx.signatures i below in
        let (tx', signed, _, slot) =
          sign_slots tx first signers bytes e d i (Keypair.public_key kp) old hk there in
        (
          tx',
          signed,
          (
            last_signature bytes (Keypair.public_key kp) old (first ∷ signers),
            slot,
            last_signature-verifies bytes (Keypair.public_key kp) old (first ∷ signers) from
                (inr (j, kp, hj, refl)),
          ),
        )
