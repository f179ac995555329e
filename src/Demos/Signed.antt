-- ===== src/Demos/Signed.antt =====
-- examples/offline_sign.cpp: what the program prints.
use solana_cpp_sdk.Base.{ℕ, zero, suc, ◌+◌, ◌≤◌, ◌≡◌, refl, arith, true, List, [], ◌∷◌}
use solana_cpp_sdk.Base.{some, get_elem?, get_elem?-some, length, replicate, ok}
use solana_cpp_sdk.Base.{◌/◌, ◌%◌}
use solana_cpp_sdk.Transaction.{Transaction}
use solana_cpp_sdk.Base58.{
  decode, decode_loop, decode_digit, pass, emit, digit_of, alphabet_map, drop_zeros, count_leading,
}
use solana_cpp_sdk.Sodium.{Sodium, IsSodium, WritesBytes}
use solana_cpp_sdk.PublicKey.{PublicKey, from_base58}
use solana_cpp_sdk.PublicKey.Texts.{from_base58-IsPublicKey, to_base58-IsPublicKey}
use solana_cpp_sdk.Keypair
use solana_cpp_sdk.Keypair.{Keypair}
use solana_cpp_sdk.Keypair.Bytes.{from_seed-IsPublicKey}
use solana_cpp_sdk.Programs.Shapes.{transfer_of, transfer_lem}
use solana_cpp_sdk.Transaction.EndToEnd.{IsSigned, to_base64-sign}
use solana_cpp_sdk.Demos.{
  returned, out, outcome, printed, hex_from, hex_digit, first_signature, seed_with,
}
use solana_cpp_sdk.Demos.Constants.{wrapped_sol, wrapped_sol-IsKey, seed-IsByte, seed_size}
use solana_cpp_sdk.Demos.OfflineSign.{main, sign_offline, simulate_blockhash_from_gateway}

gateway_blockhash : decode simulate_blockhash_from_gateway ≡ ok (replicate 32 0)
unfolding decode simulate_blockhash_from_gateway decode_loop decode_digit pass emit digit_of
    alphabet_map drop_zeros count_leading
gateway_blockhash = refl

hex_from-length :
    (n i : ℕ) (bytes : List ℕ)
    → i + n ≤ length bytes
    → (text : List ℕ) × (hex_from n i bytes ≡ ok text)
unfolding hex_from
hex_from-length zero i bytes h = ([], refl)
hex_from-length (suc n) i bytes h =
    let (b, there) = get_elem?-some bytes i (omega arith) in
    let (text, rest) = hex_from-length n (i + 1) bytes (omega arith) in
    (hex_digit (b / 16) ∷ hex_digit (b % 16) ∷ text, rw (hex_from, there, rest))

first_signature-get_elem? :
    (ss : List (List ℕ)) (s : List ℕ) → get_elem? ss 0 ≡ some s → first_signature ss ≡ ok s
unfolding first_signature
first_signature-get_elem? [] s h = cc
first_signature-get_elem? (x ∷ ss) s h = cc

module _ (sodium : Sodium) (sol : ℕ → List ℕ) where
  -- With libsodium initialised, offline_sign returns 0, and its thirteenth line is a text from
  -- which the RPC client's decoder, compiled so that signed shifts wrap, and a reader of the wire
  -- format get a signed message back: it stands for the transfer of 100000 lamports from the key of
  -- the seed to the recipient, with a blockhash of zeros, and its first signature is the sender's
  -- and verifies.
  pub main_prints :
      IsSodium sodium
      → WritesBytes sodium
      → sodium.ready ≡ true
      → (signer : Keypair) × (recipient : PublicKey) × (tx : Transaction) × (text : List ℕ)
        × (Keypair.from_seed sodium (seed_with 0 0x01 31 0xff) ≡ ok signer)
        × (from_base58 wrapped_sol ≡ ok recipient)
        × (outcome (main sodium sol) ≡ returned 0)
        × (get_elem? (printed (main sodium sol)) 12 ≡ some (out text))
        × IsSigned sodium
            (transfer_of (Keypair.public_key signer) recipient 100000 ∷ [])
            signer
            (replicate 32 0)
            tx
            text
  unfolding main sign_offline outcome printed
  main_prints laws writes ready =
      let (signer, made, key) =
        from_seed-IsPublicKey sodium (seed_with 0 0x01 31 0xff) laws writes ready seed_size
          seed-IsByte in
      let (signer_text, shown) = to_base58-IsPublicKey (Keypair.public_key signer) key in
      let (recipient, read, _) = wrapped_sol-IsKey in
      let recipient_key = from_base58-IsPublicKey wrapped_sol recipient read in
      let (recipient_text, shown') = to_base58-IsPublicKey recipient recipient_key in
      let (built, shape) =
        transfer_lem (Keypair.public_key signer) recipient 100000 key recipient_key in
      let (msg, tx, text, compiled, signed, encoded, result) =
        to_base64-sign sodium laws writes ready
          (transfer_of (Keypair.public_key signer) recipient 100000 ∷ []) signer
          simulate_blockhash_from_gateway (replicate 32 0)
          (seed_with 0 0x01 31 0xff, seed_size, made) key (shape, tt) (omega arith)
          gateway_blockhash refl in
      let first = first_signature-get_elem? tx.signatures result.signature result.placed in
      let (start, hex) = hex_from-length 8 0 result.signature (omega (arith, result.size)) in
      (
        signer,
        recipient,
        tx,
        text,
        made,
        read,
        rw (made, shown, read, shown', built, compiled, signed, encoded, result.written, first, hex)
            refl,
        rw (made, shown, read, shown', built, compiled, signed, encoded) refl,
        result,
      )
