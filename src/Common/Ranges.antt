-- ===== src/Common/Ranges.antt =====
-- Ascending maps that are cut in two: where a search for a key lands.
use cpp_database_engine.Common.Names.{
  ◌≡◌, refl, ◌∙◌, true, false, none, List, [], ◌∷◌, ◌++◌, arith, inl, inr,
}
use cpp_database_engine.Common.Tests.{if◌then◌else◌, Bool-cases}
use cpp_database_engine.Common.Int.{ℤ, ltb_ℤ, eqb_ℤ, ◌<ℤ◌}
use cpp_database_engine.Common.SortedMap.{
  lookup, from, Above, Ascending, lookup_of_Above, Above-trans,
}

module _ {V : Type 0} where
  pub Above-append_left : (k : ℤ) (m n : List (ℤ × V)) → Above k (m ++ n) → Above k m
  Above-append_left k [] n a = tt
  Above-append_left k ((j, w) ∷ m) n a = (a.0, Above-append_left k m n a.1)

  pub Above-append_right : (k : ℤ) (m n : List (ℤ × V)) → Above k (m ++ n) → Above k n
  Above-append_right k [] n a = a
  Above-append_right k ((j, w) ∷ m) n a = Above-append_right k m n a.1

  pub Ascending-append_right : (m n : List (ℤ × V)) → Ascending (m ++ n) → Ascending n
  Ascending-append_right [] n s = s
  Ascending-append_right ((j, w) ∷ m) n s = Ascending-append_right m n s.1

  pub from_of_Above : (k : ℤ) (m : List (ℤ × V)) → Above k m → from k m ≡ m
  from_of_Above k [] a = refl
  from_of_Above k ((j, w) ∷ m) a = ground arith

  -- The search ends in the first part where the second one is above the key.
  pub from-append : (k : ℤ) (m n : List (ℤ × V)) → Above k n → from k (m ++ n) ≡ from k m ++ n
  from-append k [] n a = from_of_Above k n a
  from-append k ((j, w) ∷ m) n a = elim (Bool-cases (ltb_ℤ j k)) [
    | inl e ↦ rw e (from-append k m n a)
    | inr e ↦ rw e refl
  ]

  -- The search skips the first part where the second one starts at the key or before it.
  pub from-skip :
      (k j : ℤ) (w : V) (m n : List (ℤ × V))
      → Ascending (m ++ (j, w) ∷ n)
      → ltb_ℤ k j ≡ false
      → from k (m ++ (j, w) ∷ n) ≡ from k ((j, w) ∷ n)
  from-skip k j w [] n s h = refl
  from-skip k j w ((i, x) ∷ m) n s h =
      let before : i <ℤ j = (Above-append_right i m ((j, w) ∷ n) s.0).0 in
      let skip : ltb_ℤ i k ≡ true = ground arith in rw skip (from-skip k j w m n s.1 h)

  -- What the search from a key leaves.
  pub lookup-from :
      (j k : ℤ) (m : List (ℤ × V))
      → Ascending m
      → lookup j (from k m) ≡ (if ltb_ℤ j k then none else lookup j m)
  lookup-from j k [] s = ground arith
  lookup-from j k ((i, w) ∷ m) s = elim (Bool-cases (ltb_ℤ i k)) [
    | inl e ↦ rw e (lookup-from j k m s.1 ∙ skipped e)
    | inr e ↦ rw e (elim (Bool-cases (ltb_ℤ j k)) [
      | inl below ↦
          let apart : eqb_ℤ i j ≡ false = ground arith in
          rw (below, apart) (lookup_of_Above j m (Above-trans j i m (ground arith) s.0))
      | inr above ↦ rw above refl
    ])
  ]
    where
      skipped :
          ltb_ℤ i k ≡ true
          → (if ltb_ℤ j k then none else lookup j m)
            ≡ (if ltb_ℤ j k then none else lookup j ((i, w) ∷ m))
      skipped e = elim (Bool-cases (ltb_ℤ j k)) [
        | inl below ↦ rw below refl
        | inr above ↦ let apart : eqb_ℤ i j ≡ false = ground arith in rw (above, apart) refl
      ]
