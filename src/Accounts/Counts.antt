-- ===== src/Accounts/Counts.antt =====
-- The counters of a message header, as numbers of keys with given flags.
use solana_cpp_sdk.Base.{
  ℕ, suc, ◌+◌, ◌%◌, ◌<◌, ◌≤◌, some, get_elem?, length, ◌≡◌, refl, arith, ◌∙◌, sym,
}
use solana_cpp_sdk.Base.{List, [], ◌∷◌, Bool, true, false, if◌then◌else◌, u8, All}
use solana_cpp_sdk.Base.{Bool-cases, inl, inr}
use solana_cpp_sdk.PublicKey.{PublicKey, equals}
use solana_cpp_sdk.PublicKey.Laws.{equals_iff}
use solana_cpp_sdk.Accounts.{AccountInfo, keys, count_u8}
use solana_cpp_sdk.Accounts.Laws.{Distinct, signs, writes}

abbrev pub count_keys : (PublicKey → Bool) → List PublicKey → ℕ
count_keys f [] = 0
count_keys f (k ∷ ks) = if f k then suc (count_keys f ks) else count_keys f ks

-- The flags of each entry are those of its key.
abbrev pub Faithful : (PublicKey → Bool) → (PublicKey → Bool) → List AccountInfo → Type 0
Faithful s w l = All (λ a. (s a.key ≡ a.is_signer) × (w a.key ≡ a.is_writable)) l

Faithful-cons :
    (b : AccountInfo) (rest l : List AccountInfo)
    → All (λ k. equals b.key k ≡ false) (keys l)
    → Faithful (signs rest) (writes rest) l
    → Faithful (signs (b ∷ rest)) (writes (b ∷ rest)) l
unfolding keys
Faithful-cons b rest [] ne h = tt
Faithful-cons b rest (a ∷ l) ne h =
    ((rw (ne.0) h.0.0, rw (ne.0) h.0.1), Faithful-cons b rest l ne.1 h.1)

pub Distinct-Faithful : (l : List AccountInfo) → Distinct (keys l) → Faithful (signs l) (writes l) l
unfolding keys
Distinct-Faithful [] d = tt
Distinct-Faithful (a ∷ l) d =
    let same : equals a.key a.key ≡ true = (equals_iff a.key a.key).1 refl in
    ((rw same, rw same), Faithful-cons a l l d.0 (Distinct-Faithful l d.1))

pub Faithful-ext :
    (s w s' w' : PublicKey → Bool) (l : List AccountInfo)
    → ((k : PublicKey) → s k ≡ s' k)
    → ((k : PublicKey) → w k ≡ w' k)
    → Faithful s w l
    → Faithful s' w' l
Faithful-ext s w s' w' [] es ew h = tt
Faithful-ext s w s' w' (a ∷ l) es ew h =
    ((sym (es a.key) ∙ h.0.0, sym (ew a.key) ∙ h.0.1), Faithful-ext s w s' w' l es ew h.1)

-- A counter is the number of the keys that it counts, modulo 256.
pub count_u8-count_keys :
    (test : Bool → Bool → Bool) (s w : PublicKey → Bool) (n : ℕ) (l : List AccountInfo)
    → n < 256
    → Faithful s w l
    → count_u8 (λ a. test a.is_signer a.is_writable) n l
      ≡ (n + count_keys (λ k. test (s k) (w k)) (keys l)) % 256
unfolding count_u8 keys
count_u8-count_keys test s w n [] small h = omega arith
count_u8-count_keys test s w n (a ∷ l) small h =
    elim (Bool-cases (test a.is_signer a.is_writable)) [
      | inl yes_ ↦
          rw (h.0.0, h.0.1, yes_)
            (count_u8-count_keys test s w (u8 (n + 1)) l (omega arith) h.1 ∙ omega arith)
      | inr no_ ↦ rw (h.0.0, h.0.1, no_) (count_u8-count_keys test s w n l small h.1)
    ]

pub count_keys-le-length :
    (f : PublicKey → Bool) (ks : List PublicKey) → count_keys f ks ≤ length ks
count_keys-le-length f [] = omega arith
count_keys-le-length f (k ∷ ks) = ground (arith, count_keys-le-length f ks)

-- A list whose first key counts has one that does.
pub count_keys_first :
    (f : PublicKey → Bool) (ks : List PublicKey) (k : PublicKey)
    → get_elem? ks 0 ≡ some k
    → f k ≡ true
    → 0 < count_keys f ks
count_keys_first f [] k h e = cc
count_keys_first f (x ∷ ks) k h e = let same : x ≡ k = cc in rw (same, e) (omega arith)
