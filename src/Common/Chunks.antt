-- ===== src/Common/Chunks.antt =====
-- Cutting a list into pieces of bounded length, as the page-packing loops do.
use cpp_database_engine.Common.Names.{
  ℕ, zero, suc, ◌≤◌, ◌<◌, ◌≡◌, refl, ap, ◌∙◌, some, List, [], ◌∷◌, ◌++◌, arith,
}
use cpp_database_engine.Common.Lists.{length, take, drop, get_elem?, length-append}

module _ {ℓ} {A : Type ℓ} where
  -- The fuel bounds the number of pieces.
  unfoldable pub chunks : ℕ → ℕ → List A → List (List A)
  chunks zero n xs = []
  chunks (suc fuel) n [] = []
  chunks (suc fuel) n (x ∷ xs) = take n (x ∷ xs) ∷ chunks fuel n (drop n (x ∷ xs))

  abbrev pub concat : List (List A) → List A
  concat [] = []
  concat (xs ∷ xss) = xs ++ concat xss

  abbrev pub AllNonempty : List (List A) → Type 0
  AllNonempty [] = Unit
  AllNonempty (xs ∷ xss) = (1 ≤ length xs) × AllNonempty xss

  abbrev pub AllAtMost : ℕ → List (List A) → Type 0
  AllAtMost n [] = Unit
  AllAtMost n (xs ∷ xss) = (length xs ≤ n) × AllAtMost n xss

  pub take_append_drop : (n : ℕ) (xs : List A) → take n xs ++ drop n xs ≡ xs
  take_append_drop zero xs = refl
  take_append_drop (suc n) [] = refl
  take_append_drop (suc n) (x ∷ xs) = ap (λ l. x ∷ l) (take_append_drop n xs)

  pub length-drop_le : (n : ℕ) (xs : List A) → length (drop n xs) ≤ length xs
  length-drop_le zero xs = omega arith
  length-drop_le (suc n) [] = omega arith
  length-drop_le (suc n) (x ∷ xs) = omega (arith, length-drop_le n xs)

  length-take_le : (n : ℕ) (xs : List A) → length (take n xs) ≤ n
  length-take_le zero xs = omega arith
  length-take_le (suc n) [] = omega arith
  length-take_le (suc n) (x ∷ xs) = omega (arith, length-take_le n xs)

  -- Enough fuel cuts the whole list.
  pub concat-chunks :
      (fuel n : ℕ) (xs : List A) → length xs ≤ fuel → concat (chunks fuel (suc n) xs) ≡ xs
  unfolding chunks
  concat-chunks zero n [] h = refl
  concat-chunks zero n (x ∷ xs) h = absurd (omega arith)
  concat-chunks (suc fuel) n [] h = refl
  concat-chunks (suc fuel) n (x ∷ xs) h =
      let l = length-drop_le n xs in
      ap (λ l. x ∷ (take n xs ++ l)) (concat-chunks fuel n (drop n xs) (omega arith))
      ∙ ap (λ l. x ∷ l) (take_append_drop n xs)

  pub chunks-AllNonempty : (fuel n : ℕ) (xs : List A) → AllNonempty (chunks fuel (suc n) xs)
  unfolding chunks
  chunks-AllNonempty zero n xs = tt
  chunks-AllNonempty (suc fuel) n [] = tt
  chunks-AllNonempty (suc fuel) n (x ∷ xs) = (omega arith, chunks-AllNonempty fuel n (drop n xs))

  pub chunks-AllAtMost : (fuel n : ℕ) (xs : List A) → AllAtMost n (chunks fuel n xs)
  unfolding chunks
  chunks-AllAtMost zero n xs = tt
  chunks-AllAtMost (suc fuel) n [] = tt
  chunks-AllAtMost (suc fuel) n (x ∷ xs) =
      (length-take_le n (x ∷ xs), chunks-AllAtMost fuel n (drop n (x ∷ xs)))

  pub length_le_concat : (xss : List (List A)) → AllNonempty xss → length xss ≤ length (concat xss)
  length_le_concat [] h = omega arith
  length_le_concat (xs ∷ xss) h =
      let ih = length_le_concat xss h.1 in omega (arith, length-append xs (concat xss), h.0)

  pub get_elem?_of_drop :
      (i : ℕ) (xs rest : List A) (x : A) → drop i xs ≡ x ∷ rest → get_elem? xs i ≡ some x
  get_elem?_of_drop zero [] rest x h = cc
  get_elem?_of_drop zero (y ∷ xs) rest x h = cc
  get_elem?_of_drop (suc i) [] rest x h = cc
  get_elem?_of_drop (suc i) (y ∷ xs) rest x h = get_elem?_of_drop i xs rest x h

  pub drop-suc_of_drop :
      (i : ℕ) (xs rest : List A) (x : A) → drop i xs ≡ x ∷ rest → drop (suc i) xs ≡ rest
  drop-suc_of_drop zero [] rest x h = cc
  drop-suc_of_drop zero (y ∷ xs) rest x h = cc
  drop-suc_of_drop (suc i) [] rest x h = cc
  drop-suc_of_drop (suc i) (y ∷ xs) rest x h = drop-suc_of_drop i xs rest x h

  pub lt_of_get_elem? : (xs : List A) (i : ℕ) (x : A) → get_elem? xs i ≡ some x → i < length xs
  lt_of_get_elem? [] i x h = cc
  lt_of_get_elem? (y ∷ xs) zero x h = omega arith
  lt_of_get_elem? (y ∷ xs) (suc i) x h = omega (arith, lt_of_get_elem? xs i x h)

  pub append_assoc : (xs ys zs : List A) → (xs ++ ys) ++ zs ≡ xs ++ (ys ++ zs)
  append_assoc [] ys zs = refl
  append_assoc (x ∷ xs) ys zs = ap (λ l. x ∷ l) (append_assoc xs ys zs)
