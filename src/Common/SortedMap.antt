-- ===== src/Common/SortedMap.antt =====
-- Finite maps from 64-bit keys as association lists in ascending key order: what every storage
-- engine (engine/storage_engine.h) promises to be.
use cpp_database_engine.Common.Names.{
  ◌≡◌, refl, sym, ap, subst, ◌∙◌, false, Option, none, some, List, [], ◌∷◌, arith, inl, inr,
}
use cpp_database_engine.Common.Tests.{if◌then◌else◌, Bool-cases}
use cpp_database_engine.Common.Int.{ℤ, ltb_ℤ, eqb_ℤ, ◌<ℤ◌, eqb_ℤ_iff, eq_of_parts}

module _ {V : Type 0} where
  abbrev pub lookup : ℤ → List (ℤ × V) → Option V
  lookup k [] = none
  lookup k ((j, v) ∷ m) = if eqb_ℤ j k then some v else lookup k m

  -- Upsert, in key order.
  abbrev pub insert : ℤ → V → List (ℤ × V) → List (ℤ × V)
  insert k v [] = (k, v) ∷ []
  insert k v ((j, w) ∷ m) =
      if ltb_ℤ j k
      then (j, w) ∷ insert k v m
      else if eqb_ℤ j k
      then (k, v) ∷ m
      else (k, v) ∷ (j, w) ∷ m

  abbrev pub erase : ℤ → List (ℤ × V) → List (ℤ × V)
  erase k [] = []
  erase k ((j, w) ∷ m) = if eqb_ℤ j k then m else (j, w) ∷ erase k m

  -- The entries whose key is not below `k`.
  abbrev pub from : ℤ → List (ℤ × V) → List (ℤ × V)
  from k [] = []
  from k ((j, w) ∷ m) = if ltb_ℤ j k then from k m else (j, w) ∷ m

  -- Every key of the list is above `k`.
  abbrev pub Above : ℤ → List (ℤ × V) → Type 0
  Above k [] = Unit
  Above k ((j, w) ∷ m) = (k <ℤ j) × Above k m

  abbrev pub Ascending : List (ℤ × V) → Type 0
  Ascending [] = Unit
  Ascending ((j, w) ∷ m) = Above j m × Ascending m

  -- Every key of the list satisfies the predicate.
  abbrev pub AllKeys : (ℤ → Type 0) → List (ℤ × V) → Type 0
  AllKeys P [] = Unit
  AllKeys P ((j, w) ∷ m) = P j × AllKeys P m

  pub Above-trans : (k j : ℤ) (m : List (ℤ × V)) → k <ℤ j → Above j m → Above k m
  Above-trans k j [] h a = tt
  Above-trans k j ((i, w) ∷ m) h a = (omega arith, Above-trans k j m h a.1)

  pub lookup_of_Above : (k : ℤ) (m : List (ℤ × V)) → Above k m → lookup k m ≡ none
  lookup_of_Above k [] a = refl
  lookup_of_Above k ((j, w) ∷ m) a = ground (arith, lookup_of_Above k m a.1)

  pub lookup-insert :
      (k j : ℤ) (v : V) (m : List (ℤ × V))
      → lookup j (insert k v m) ≡ (if eqb_ℤ k j then some v else lookup j m)
  lookup-insert k j v [] = refl
  lookup-insert k j v ((i, w) ∷ m) = ground (arith, lookup-insert k j v m)

  pub lookup-erase :
      (k j : ℤ) (m : List (ℤ × V))
      → Ascending m
      → lookup j (erase k m) ≡ (if eqb_ℤ k j then none else lookup j m)
  lookup-erase k j [] s = ground arith
  lookup-erase k j ((i, w) ∷ m) s = ground (arith, lookup-erase k j m s.1, lookup_of_Above i m s.0)

  Above-insert : (i k : ℤ) (v : V) (m : List (ℤ × V)) → i <ℤ k → Above i m → Above i (insert k v m)
  Above-insert i k v [] h a = (h, tt)
  Above-insert i k v ((j, w) ∷ m) h a = ground (arith, Above-insert i k v m h a.1)

  pub insert-Ascending : (k : ℤ) (v : V) (m : List (ℤ × V)) → Ascending m → Ascending (insert k v m)
  insert-Ascending k v [] s = (tt, tt)
  insert-Ascending k v ((j, w) ∷ m) s =
      ground (arith, insert-Ascending k v m s.1, Above-insert j k v m, Above-trans k j m)

  Above-erase : (i k : ℤ) (m : List (ℤ × V)) → Above i m → Above i (erase k m)
  Above-erase i k [] a = tt
  Above-erase i k ((j, w) ∷ m) a = ground (arith, Above-erase i k m a.1)

  pub erase-Ascending : (k : ℤ) (m : List (ℤ × V)) → Ascending m → Ascending (erase k m)
  erase-Ascending k [] s = tt
  erase-Ascending k ((j, w) ∷ m) s = ground (arith, erase-Ascending k m s.1, Above-erase j k m s.0)

  pub from-Ascending : (k : ℤ) (m : List (ℤ × V)) → Ascending m → Ascending (from k m)
  from-Ascending k [] s = tt
  from-Ascending k ((j, w) ∷ m) s = ground (arith, from-Ascending k m s.1)

  pub from-AllKeys :
      (P : ℤ → Type 0) (k : ℤ) (m : List (ℤ × V)) → AllKeys P m → AllKeys P (from k m)
  from-AllKeys P k [] a = tt
  from-AllKeys P k ((j, w) ∷ m) a = elim (Bool-cases (ltb_ℤ j k)) [
    | inl before ↦ rw before (from-AllKeys P k m a.1)
    | inr after ↦ rw after a
  ]

  pub lookup_head : (k : ℤ) (v : V) (m : List (ℤ × V)) → lookup k ((k, v) ∷ m) ≡ some v
  lookup_head k v m = ground arith

  lookup_tail :
      (k j : ℤ) (v : V) (m : List (ℤ × V)) → lookup j ((k, v) ∷ m) ≡ none → lookup j m ≡ none
  lookup_tail k j v m h = elim (Bool-cases (eqb_ℤ k j)) [
    | inl same ↦ let found : some v ≡ none = rw same at h in cc
    | inr apart ↦ rw apart at h
  ]

  -- A map that has no key up to `k`.
  pub Above-of_lookup :
      (k : ℤ) (m : List (ℤ × V)) → ((j : ℤ) → ltb_ℤ k j ≡ false → lookup j m ≡ none) → Above k m
  Above-of_lookup k [] h = tt
  Above-of_lookup k ((j, w) ∷ m) h = (
    elim (Bool-cases (ltb_ℤ k j)) [
      | inl e ↦ ground arith
      | inr e ↦ let clash : some w ≡ none = sym (lookup_head j w m) ∙ h j e in cc
    ],
    Above-of_lookup k m (λ i e. lookup_tail j i w m (h i e)),
  )

  not_before :
      (k j : ℤ) (v w : V) (m n : List (ℤ × V))
      → Above j n
      → lookup k ((k, v) ∷ m) ≡ lookup k ((j, w) ∷ n)
      → ltb_ℤ k j ≡ false
  not_before k j v w m n above h = elim (Bool-cases (ltb_ℤ k j)) [
    | inl e ↦
        let absent : lookup k ((j, w) ∷ n) ≡ none =
          lookup_of_Above k ((j, w) ∷ n) (ground arith, Above-trans k j n (ground arith) above) in
        let clash : some v ≡ none = sym (lookup_head k v m) ∙ h ∙ absent in cc
    | inr e ↦ e
  ]

  -- Two ascending maps that agree on every key are equal.
  pub eq_of_lookup :
      (m n : List (ℤ × V)) → Ascending m → Ascending n → ((k : ℤ) → lookup k m ≡ lookup k n) → m ≡ n
  eq_of_lookup [] [] s t h = refl
  eq_of_lookup [] ((j, w) ∷ n) s t h = let clash : none ≡ some w = h j ∙ lookup_head j w n in cc
  eq_of_lookup ((k, v) ∷ m) [] s t h =
      let clash : some v ≡ none = sym (lookup_head k v m) ∙ h k in cc
  eq_of_lookup ((k, v) ∷ m) ((j, w) ∷ n) s t h =
      let a = not_before k j v w m n t.0 (h k) in
      let b = not_before j k w v n m s.0 (sym (h j)) in
      let same : k ≡ j = eq_of_parts k j (ground arith) in
      let values : some v ≡ some w =
        sym (lookup_head k v m) ∙ h k ∙ ap (λ i. lookup i ((j, w) ∷ n)) same ∙ lookup_head j w n in
      let tails : m ≡ n = eq_of_lookup m n s.1 t.1 (λ i. tail i same (h i)) in
      let heads : v ≡ w = cc in
      ap (λ p. p ∷ m) (ap (λ i. (i, v)) same ∙ ap (λ x. (j, x)) heads) ∙ ap (λ l. (j, w) ∷ l) tails
    where
      tail :
          (i : ℤ) → k ≡ j → lookup i ((k, v) ∷ m) ≡ lookup i ((j, w) ∷ n) → lookup i m ≡ lookup i n
      tail i same e = elim (Bool-cases (eqb_ℤ k i)) [
        | inl here ↦
            let at : k ≡ i = (eqb_ℤ_iff k i).0 here in
            subst (λ x. lookup x m ≡ none) at (lookup_of_Above k m s.0)
            ∙ sym (subst (λ x. lookup x n ≡ none) (sym same ∙ at) (lookup_of_Above j n t.0))
        | inr apart ↦
            let apart' : eqb_ℤ j i ≡ false = subst (λ x. eqb_ℤ x i ≡ false) same apart in
            ground arith
      ]
