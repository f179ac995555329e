-- ===== src/MessageV0/Groups.antt =====
-- The four groups of the static accounts, and how many of each the header counts.
use solana_cpp_sdk.Base.{ℕ, zero, suc, ◌+◌, ◌%◌, ◌<◌, ◌≡◌, refl, arith, ap, ◌∙◌, List, [], ◌∷◌}
use solana_cpp_sdk.Base.{◌++◌, Bool, true, false, not, ◌&&◌, some, get_elem?, length, if◌then◌else◌}
use solana_cpp_sdk.Base.{Bool-cases, inl, inr, u8, length-append}
use mathlib.Core.Path.{subst}
use solana_cpp_sdk.PublicKey.{PublicKey}
use solana_cpp_sdk.Accounts.{AccountInfo, keys, count_u8}
use solana_cpp_sdk.Accounts.Counts.{Faithful}
use solana_cpp_sdk.MessageV0.{select, sort_accounts, header_of}

some-injective : (a b : PublicKey) → some a ≡ some b → a ≡ b
some-injective a b e = cc

-- A test of the two flags.
abbrev pub passes : (Bool → Bool → Bool) → AccountInfo → Bool
passes test a = test a.is_signer a.is_writable

pub keys-append : (xs ys : List AccountInfo) → keys (xs ++ ys) ≡ keys xs ++ keys ys
unfolding keys
keys-append [] ys = refl
keys-append (a ∷ xs) ys = ap (λ t. a.key ∷ t) (keys-append xs ys)

pub length-keys : (xs : List AccountInfo) → length (keys xs) ≡ length xs
unfolding keys
length-keys [] = refl
length-keys (a ∷ xs) = ap suc (length-keys xs)

count_u8-append :
    (t : AccountInfo → Bool) (n : ℕ) (xs ys : List AccountInfo)
    → count_u8 t n (xs ++ ys) ≡ count_u8 t (count_u8 t n xs) ys
unfolding count_u8
count_u8-append t n [] ys = refl
count_u8-append t n (a ∷ xs) ys = count_u8-append t (if t a then u8 (n + 1) else n) xs ys

module _ (f t : Bool → Bool → Bool) where
  -- All that `f` selects pass `t`, or none does.
  count_selected :
      ((s w : Bool) → f s w ≡ true → t s w ≡ true)
      → (n : ℕ) (l : List AccountInfo) → n < 256
      → count_u8 (passes t) n (select (passes f) l) ≡ (n + length (select (passes f) l)) % 256
  unfolding count_u8 select
  count_selected imp n [] h = omega arith
  count_selected imp n (a ∷ l) h = elim (Bool-cases (passes f a)) [
    | inl e ↦
        let passed : passes t a ≡ true = imp a.is_signer a.is_writable e in
        rw (e, count_u8, passed) (count_selected imp (u8 (n + 1)) l (omega arith) ∙ omega arith)
    | inr e ↦ rw e (count_selected imp n l h)
  ]

  count_unselected :
      ((s w : Bool) → f s w ≡ true → t s w ≡ false)
      → (n : ℕ) (l : List AccountInfo) → count_u8 (passes t) n (select (passes f) l) ≡ n
  unfolding count_u8 select
  count_unselected imp n [] = refl
  count_unselected imp n (a ∷ l) = elim (Bool-cases (passes f a)) [
    | inl e ↦
        let failed : passes t a ≡ false = imp a.is_signer a.is_writable e in
        rw (e, count_u8, failed) (count_unselected imp n l)
    | inr e ↦ rw e (count_unselected imp n l)
  ]

-- The flags of a selected key.
first_or_rest :
    {P : Type 0} (x k : PublicKey) (rest : List PublicKey) (i : ℕ)
    → (x ≡ k → P)
    → ((j : ℕ) → get_elem? rest j ≡ some k → P)
    → get_elem? (x ∷ rest) i ≡ some k
    → P
first_or_rest x k rest zero here there e = here (some-injective x k e)
first_or_rest x k rest (suc i) here there e = there i e

pub selected_flags :
    (f : Bool → Bool → Bool) (s w : PublicKey → Bool) (l : List AccountInfo) (i : ℕ) (k : PublicKey)
    → Faithful s w l
    → get_elem? (keys (select (passes f) l)) i ≡ some k
    → f (s k) (w k) ≡ true
unfolding keys select
selected_flags f s w [] i k h e = cc
selected_flags f s w (a ∷ l) i k h e = elim (Bool-cases (passes f a)) [
  | inl p ↦
      first_or_rest a.key k (keys (select (passes f) l)) i (λ same. rw (← same, h.0.0, h.0.1) p)
        (λ j e'. selected_flags f s w l j k h.1 e')
        (subst
          (λ b.
            get_elem? (keys (if b then a ∷ select (passes f) l else select (passes f) l)) i
            ≡ some k)
          p e)
  | inr p ↦ selected_flags f s w l i k h.1 (
      subst
        (λ b.
          get_elem? (keys (if b then a ∷ select (passes f) l else select (passes f) l)) i ≡ some k)
        p e)
]

abbrev pub both : Bool → Bool → Bool
both s w = s && w

abbrev pub signs_only : Bool → Bool → Bool
signs_only s w = s && not w

abbrev pub writes_only : Bool → Bool → Bool
writes_only s w = not s && w

abbrev pub neither : Bool → Bool → Bool
neither s w = not s && not w

module _ (l : List AccountInfo) where
  unfoldable pub ws : List AccountInfo
  ws = select (passes both) l

  unfoldable pub rs : List AccountInfo
  rs = select (passes signs_only) l

  unfoldable pub wn : List AccountInfo
  wn = select (passes writes_only) l

  unfoldable pub rn : List AccountInfo
  rn = select (passes neither) l

  pub sort_groups : sort_accounts l ≡ ws ++ (rs ++ (wn ++ rn))
  unfolding sort_accounts ws rs wn rn
  sort_groups = refl

  -- The header, while no counter wraps.
  module _ (small : length (sort_accounts l) < 256) where
    total : length ws + (length rs + (length wn + length rn)) < 256
    total = omega (
      arith,
      ap (λ (t : List AccountInfo). length t) sort_groups,
      length-append ws (rs ++ (wn ++ rn)),
      length-append rs (wn ++ rn),
      length-append wn rn,
      small,
    )

    counted :
        (t : Bool → Bool → Bool)
        → count_u8 (passes t) 0 (sort_accounts l)
          ≡ count_u8
              (passes t)
              (count_u8 (passes t) (count_u8 (passes t) (count_u8 (passes t) 0 ws) rs) wn)
              rn
    counted t =
        ap (count_u8 (passes t) 0) sort_groups
        ∙ count_u8-append (passes t) 0 ws (rs ++ (wn ++ rn))
        ∙ count_u8-append (passes t) (count_u8 (passes t) 0 ws) rs (wn ++ rn)
        ∙ count_u8-append (passes t) (count_u8 (passes t) (count_u8 (passes t) 0 ws) rs) wn rn

    pub signer_count : (header_of (sort_accounts l)).num_required_signatures ≡ length ws + length rs
    unfolding header_of ws rs wn rn
    signer_count =
        let first : count_u8 (passes (λ s w. s)) 0 ws ≡ length ws =
          count_selected both (λ s w. s) (λ s w h. ground arith) 0 l (omega arith)
          ∙ omega (arith, total) in
        let second : count_u8 (passes (λ s w. s)) (length ws) rs ≡ length ws + length rs =
          count_selected signs_only (λ s w. s) (λ s w h. ground arith) (length ws) l
            (omega (arith, total))
          ∙ omega (arith, total) in
        counted (λ s w. s)
        ∙ rw (
          first,
          second,
          count_unselected writes_only (λ s w. s) (λ s w h. ground arith) (length ws + length rs) l,
          count_unselected neither (λ s w. s) (λ s w h. ground arith) (length ws + length rs) l,
        )

    pub readonly_signed_count :
        (header_of (sort_accounts l)).num_readonly_signed_accounts ≡ length rs
    unfolding header_of ws rs wn rn
    readonly_signed_count =
        counted signs_only
        ∙ rw
            (
              count_unselected both signs_only (λ s w h. ground arith) 0 l,
              count_selected signs_only signs_only (λ s w h. h) 0 l (omega arith),
              count_unselected writes_only signs_only (λ s w h. ground arith)
                  ((0 + length (select (passes signs_only) l)) % 256) l,
              count_unselected neither signs_only (λ s w h. ground arith)
                  ((0 + length (select (passes signs_only) l)) % 256) l,
            )
            (omega (arith, total))

    pub readonly_unsigned_count :
        (header_of (sort_accounts l)).num_readonly_unsigned_accounts ≡ length rn
    unfolding header_of ws rs wn rn
    readonly_unsigned_count =
        counted neither
        ∙ rw
            (
              count_unselected both neither (λ s w h. ground arith) 0 l,
              count_unselected signs_only neither (λ s w h. ground arith) 0 l,
              count_unselected writes_only neither (λ s w h. ground arith) 0 l,
              count_selected neither neither (λ s w h. h) 0 l (omega arith),
            )
            (omega (arith, total))
