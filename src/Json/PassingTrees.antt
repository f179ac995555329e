-- ===== src/Json/PassingTrees.antt =====
-- src/solana/json.cpp: `findMatchingBrace` on the texts of trees.
use solana_cpp_sdk.Base.{ℕ, List, [], ◌∷◌, ◌++◌, Bool, true, false, ◌≡◌}
use solana_cpp_sdk.Base.{refl, All, arith, ◌&&◌, ◌||◌, ◌==◌, not, codes}
use solana_cpp_sdk.Json.{is_digit}
use solana_cpp_sdk.Json.Brackets.{}
use solana_cpp_sdk.Json.Print.{
  Tree, nothing, flag, digits, quoted, listing, mapping, Items, Entries,
}
use solana_cpp_sdk.Json.Print.{no_items, item, no_entries, entry, print, print_items, print_more}
use solana_cpp_sdk.Json.Print.{print_entries, print_others, wrap}
use solana_cpp_sdk.Json.Print.{IsWritten, AreWritten, AreKept, flag_text}
use solana_cpp_sdk.Json.Passing.{
  Passes, Passes-nil, Passes-append, IsPlain, Passes-plain, Passes-escape, Passes-key, Passes-array,
  Passes-object,
}

is_plain : ℕ → Bool
is_plain x = not (x == 34 || x == 92 || x == 91 || x == 93 || x == 123 || x == 125)

is_plain-IsPlain : (x : ℕ) → is_plain x ≡ true → IsPlain x
unfolding is_plain
is_plain-IsPlain x h = (
  (λ i. ground arith),
  (
    (λ i. ground arith),
    ((λ i. ground arith), ((λ i. ground arith), ((λ i. ground arith), (λ i. ground arith)))),
  ),
)

are_plain : List ℕ → Bool
are_plain [] = true
are_plain (x ∷ s) = is_plain x && are_plain s

are_plain-IsPlain : (s : List ℕ) → are_plain s ≡ true → All IsPlain s
unfolding are_plain
are_plain-IsPlain [] h = tt
are_plain-IsPlain (x ∷ s) h =
    (is_plain-IsPlain x (ground arith), are_plain-IsPlain s (ground arith))

Passes-text : (s : List ℕ) → are_plain s ≡ true → Passes s
Passes-text s h = Passes-plain s (are_plain-IsPlain s h)

Passes-flag_text : (b : Bool) → Passes (flag_text b)
unfolding flag_text are_plain is_plain
Passes-flag_text true = Passes-text (codes "true") refl
Passes-flag_text false = Passes-text (codes "false") refl

Passes-item :
    (x : ℕ) (s t : List ℕ) → is_plain x ≡ true → Passes s → Passes t → Passes (x ∷ (s ++ t))
Passes-item x s t h hs ht =
    Passes-append (x ∷ []) (s ++ t) (Passes-plain (x ∷ []) (is_plain-IsPlain x h, tt))
      (Passes-append s t hs ht)

digits-IsPlain : (s : List ℕ) → All (λ c. is_digit c ≡ true) s → All IsPlain s
unfolding is_digit is_plain
digits-IsPlain [] h = tt
digits-IsPlain (x ∷ s) h = (is_plain-IsPlain x (ground arith), digits-IsPlain s h.1)

mutual
  unfolding print print_items print_more print_entries print_others IsWritten AreWritten AreKept
      are_plain is_plain

  pub Passes-print : (j : Tree) → IsWritten j → Passes (print j)
  Passes-print nothing h = Passes-text (codes "null") refl
  Passes-print (flag b) h = Passes-flag_text b
  Passes-print (digits d ds) h = Passes-plain (d ∷ ds) (digits-IsPlain (d ∷ ds) h)
  Passes-print (quoted s) h = Passes-escape s h
  Passes-print (listing items) h = Passes-array (print_items items) (Passes-print_items items h)
  Passes-print (mapping fields) h =
      Passes-object (print_entries fields) (Passes-print_entries fields h)

  pub Passes-print_items : (items : Items) → AreWritten items → Passes (print_items items)
  Passes-print_items no_items h = Passes-nil
  Passes-print_items (item j more) h =
      Passes-append (print j) (print_more more) (Passes-print j h.0) (Passes-print_more more h.1)

  Passes-print_more : (items : Items) → AreWritten items → Passes (print_more items)
  Passes-print_more no_items h = Passes-nil
  Passes-print_more (item j more) h =
      Passes-item 44 (print j) (print_more more) refl (Passes-print j h.0)
        (Passes-print_more more h.1)

  pub Passes-print_entries : (fields : Entries) → AreKept fields → Passes (print_entries fields)
  Passes-print_entries no_entries h = Passes-nil
  Passes-print_entries (entry key j more) (k, hj, hm) =
      Passes-append (wrap 34 key 34) (58 ∷ (print j ++ print_others more)) (Passes-key key k) (
        Passes-item 58 (print j) (print_others more) refl (Passes-print j hj)
          (Passes-print_others more hm))

  Passes-print_others : (fields : Entries) → AreKept fields → Passes (print_others fields)
  Passes-print_others no_entries h = Passes-nil
  Passes-print_others (entry key j more) (k, hj, hm) =
      Passes-item 44 (wrap 34 key 34) (58 ∷ (print j ++ print_others more)) refl (Passes-key key k)
        (Passes-item 58 (print j) (print_others more) refl (Passes-print j hj)
          (Passes-print_others more hm))
