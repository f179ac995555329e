-- ===== src/MessageV0/Order.antt =====
-- The order of the static keys, and a reader that knows only the counters and an index.
use solana_cpp_sdk.Base.{ℕ, zero, suc, ◌+◌, ◌-◌, ◌≤◌, ◌<◌, ◌≡◌, arith, ap, ◌∙◌, List, [], ◌∷◌}
use solana_cpp_sdk.Base.{◌++◌, Bool, true, some, get_elem?, length, ltb, if◌then◌else◌}
use solana_cpp_sdk.Base.{inl, inr, ◌⊎◌, length-append, get_elem?-lt}
use mathlib.Core.Path.{subst}
use solana_cpp_sdk.PublicKey.{PublicKey}
use solana_cpp_sdk.Accounts.{AccountInfo, keys}
use solana_cpp_sdk.Accounts.Counts.{Faithful}
use solana_cpp_sdk.Message.{MessageHeader}
use solana_cpp_sdk.MessageV0.{sort_accounts, header_of}
use solana_cpp_sdk.MessageV0.Groups.{ws, rs, wn, rn, both, signs_only, writes_only, neither}
use solana_cpp_sdk.MessageV0.Groups.{sort_groups, signer_count, readonly_signed_count, keys-append}
use solana_cpp_sdk.MessageV0.Groups.{readonly_unsigned_count, selected_flags, length-keys}

-- Where an index into two lists leads.
append_cases :
    (xs ys : List PublicKey) (i : ℕ) (k : PublicKey)
    → get_elem? (xs ++ ys) i ≡ some k
    → ((i < length xs) × (get_elem? xs i ≡ some k))
      ⊎ ((length xs ≤ i) × (get_elem? ys (i - length xs) ≡ some k))
append_cases [] ys i k e = inr (omega arith, subst (λ j. get_elem? ys j ≡ some k) (omega arith) e)
append_cases (x ∷ xs) ys zero k e = inl (omega arith, e)
append_cases (x ∷ xs) ys (suc i) k e = elim (append_cases xs ys i k e) [
  | inl (below, there) ↦ inl (omega arith, there)
  | inr (above, there) ↦ inr (omega arith, subst (λ j. get_elem? ys j ≡ some k) (omega arith) there)
]

-- The runtime's reading of a header: the flags of the key at an index of `n` static keys.
abbrev pub reads_signer : MessageHeader → ℕ → Bool
reads_signer h i = ltb i h.num_required_signatures

abbrev pub reads_writable : MessageHeader → ℕ → ℕ → Bool
reads_writable h n i =
    if ltb i h.num_required_signatures
    then ltb i (h.num_required_signatures - h.num_readonly_signed_accounts)
    else ltb i (n - h.num_readonly_unsigned_accounts)

-- The group of an index gives both flags of its key.
Grouped : ℕ → ℕ → ℕ → ℕ → ℕ → Bool → Bool → Type 0
Grouped a b c d i s w =
    ((i < a) × (both s w ≡ true))
    ⊎ (((a ≤ i) × (i < a + b) × (signs_only s w ≡ true))
        ⊎ (((a + b ≤ i) × (i < a + b + c) × (writes_only s w ≡ true))
            ⊎ ((a + b + c ≤ i) × (i < a + b + c + d) × (neither s w ≡ true))))

group_of :
    (s w : PublicKey → Bool) (l : List AccountInfo) (i : ℕ) (k : PublicKey)
    → Faithful s w l
    → get_elem? (keys (sort_accounts l)) i ≡ some k
    → Grouped (length (ws l)) (length (rs l)) (length (wn l)) (length (rn l)) i (s k) (w k)
unfolding ws rs wn rn Grouped
group_of s w l i k h e =
    elim (append_cases (keys (ws l)) (keys (rs l) ++ (keys (wn l) ++ keys (rn l))) i k split) [
      | inl (below, there) ↦
          inl (omega (arith, length-keys (ws l), below), selected_flags both s w l i k h there)
      | inr (above, e₁) ↦
          elim (append_cases (keys (rs l)) (keys (wn l) ++ keys (rn l)) (i - length (keys (ws l))) k
            e₁) [
              | inl (below, there) ↦ inr (
                  inl (
                    omega (arith, length-keys (ws l), above),
                    omega (arith, length-keys (ws l), length-keys (rs l), below, above),
                    selected_flags signs_only s w l _ k h there,
                  ))
              | inr (above₂, e₂) ↦
                  elim (append_cases (keys (wn l)) (keys (rn l))
                    (i - length (keys (ws l)) - length (keys (rs l))) k e₂) [
                      | inl (below, there) ↦ inr (
                          inr (
                            inl (
                              omega (arith, length-keys (ws l), length-keys (rs l), above, above₂),
                              omega (
                                arith,
                                length-keys (ws l),
                                length-keys (rs l),
                                length-keys (wn l),
                                below,
                                above,
                                above₂,
                              ),
                              selected_flags writes_only s w l _ k h there,
                            )))
                      | inr (above₃, there) ↦ inr (
                          inr (
                            inr (
                              omega (
                                arith,
                                length-keys (ws l),
                                length-keys (rs l),
                                length-keys (wn l),
                                above,
                                above₂,
                                above₃,
                              ),
                              omega (
                                arith,
                                length-keys (ws l),
                                length-keys (rs l),
                                length-keys (wn l),
                                length-keys (rn l),
                                above,
                                above₂,
                                above₃,
                                get_elem?-lt (keys (rn l)) _ k there,
                              ),
                              selected_flags neither s w l _ k h there,
                            )))
                    ]
            ]
    ]
  where
    split : get_elem? (keys (ws l) ++ (keys (rs l) ++ (keys (wn l) ++ keys (rn l)))) i ≡ some k
    split =
        subst (λ t. get_elem? t i ≡ some k)
          (ap keys (sort_groups l)
            ∙ keys-append (ws l) (rs l ++ (wn l ++ rn l))
            ∙ ap (λ t. keys (ws l) ++ t)
                (keys-append (rs l) (wn l ++ rn l)
                  ∙ ap (λ t. keys (rs l) ++ t) (keys-append (wn l) (rn l))))
          e

Grouped-reads :
    (a b c d i : ℕ) (s w : Bool) (h : MessageHeader)
    → h.num_required_signatures ≡ a + b
    → h.num_readonly_signed_accounts ≡ b
    → h.num_readonly_unsigned_accounts ≡ d
    → Grouped a b c d i s w
    → (reads_signer h i ≡ s) × (reads_writable h (a + (b + (c + d))) i ≡ w)
unfolding Grouped
Grouped-reads a b c d i s w h p q r (inl g) = (ground arith, ground arith)
Grouped-reads a b c d i s w h p q r (inr (inl g)) = (ground arith, ground arith)
Grouped-reads a b c d i s w h p q r (inr (inr (inl g))) = (ground arith, ground arith)
Grouped-reads a b c d i s w h p q r (inr (inr (inr g))) = (ground arith, ground arith)

-- Where the flags of the entries are those of their keys and no counter wraps, the runtime reads
-- for each key of the sorted table the flags that the table has for it.
pub sort_accounts-reads :
    (s w : PublicKey → Bool) (l : List AccountInfo) (i : ℕ) (k : PublicKey)
    → Faithful s w l
    → length (keys (sort_accounts l)) < 256
    → get_elem? (keys (sort_accounts l)) i ≡ some k
    → (reads_signer (header_of (sort_accounts l)) i ≡ s k)
      × (reads_writable (header_of (sort_accounts l)) (length (keys (sort_accounts l))) i ≡ w k)
sort_accounts-reads s w l i k h small e =
    let few : length (sort_accounts l) < 256 =
      omega (arith, length-keys (sort_accounts l), small) in
    let size : length (keys (sort_accounts l))
        ≡ length (ws l) + (length (rs l) + (length (wn l) + length (rn l))) =
      omega (
        arith,
        length-keys (sort_accounts l),
        ap (λ (t : List AccountInfo). length t) (sort_groups l),
        length-append (ws l) (rs l ++ (wn l ++ rn l)),
        length-append (rs l) (wn l ++ rn l),
        length-append (wn l) (rn l),
      ) in
    rw size (
      Grouped-reads (length (ws l)) (length (rs l)) (length (wn l)) (length (rn l)) i (s k) (w k)
        (header_of (sort_accounts l)) (signer_count l few) (readonly_signed_count l few)
        (readonly_unsigned_count l few) (group_of s w l i k h e))
