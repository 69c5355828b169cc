-- ===== src/Calibration/Four.antt =====
-- Lists of which at most four elements are kept, one more at a time.
use footscreen.Base.{
  ℕ, zero, suc, ◌-◌, ◌≤◌, ◌<◌, ◌≡◌, refl, ap, ◌∙◌, List, [], ◌∷◌, ◌++◌, length, take, drop, arith,
  length-append, append_assoc, append-nil,
}

module _ {A : Type 0} where
  pub take-nil : (n : ℕ) → take {A = A} n [] ≡ []
  take-nil zero = refl
  take-nil (suc n) = refl

  pub drop-nil : (n : ℕ) → drop {A = A} n [] ≡ []
  drop-nil zero = refl
  drop-nil (suc n) = refl

  -- One more point where there is room for it.
  pub take-room :
      (a b : List A) (p : A) (ps : List A)
      → b ≡ a ++ p ∷ []
      → length a < 4
      → b ++ take (4 - length b) ps ≡ a ++ take (4 - length a) (p ∷ ps)
  take-room a b p ps e few =
      ap (λ (x : List A). x ++ take (4 - length x) ps) e
      ∙ append_assoc a (p ∷ []) (take (4 - length (a ++ p ∷ [])) ps)
      ∙ ap (λ k. a ++ take k (p ∷ ps)) {x = suc (4 - length (a ++ p ∷ []))} {y = 4 - length a}
          (omega (arith, length-append a (p ∷ [])))

  pub drop-room :
      (a b : List A) (p : A) (ps : List A)
      → b ≡ a ++ p ∷ []
      → length a < 4
      → drop (4 - length b) ps ≡ drop (4 - length a) (p ∷ ps)
  drop-room a b p ps e few =
      ap (λ (x : List A). drop (4 - length x) ps) e
      ∙ ap (λ k. drop k (p ∷ ps)) {x = suc (4 - length (a ++ p ∷ []))} {y = 4 - length a}
          (omega (arith, length-append a (p ∷ [])))

  -- None where there is not.
  pub take-full : (a xs : List A) → 4 ≤ length a → a ++ take (4 - length a) xs ≡ a
  take-full a xs full =
      ap (λ k. a ++ take k xs) {x = 4 - length a} {y = 0} (omega arith) ∙ append-nil a

  pub drop-full : (a xs : List A) → 4 ≤ length a → drop (4 - length a) xs ≡ xs
  drop-full a xs full = ap (λ k. drop k xs) {x = 4 - length a} {y = 0} (omega arith)
