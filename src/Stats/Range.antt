-- ===== src/Stats/Range.antt =====
-- The extremes of internal/stats/stats.go bound the values.
use browser_analysis.Prelude.{
  ℕ, zero, suc, ◌-◌, ◌<◌, ◌≡◌, refl, sym, ap, ◌∙◌, Bool, true, false, List, [], ◌∷◌, arith, length,
  get_or, count_if, All, Bool-cases, inl, inr,
}
use browser_analysis.Prelude.Double.{Double}
use browser_analysis.Prelude.Sort.{
  sort_by, insert_by, count_if-sort_by, length-sort_by, count_if-insert_by,
}
use browser_analysis.Stats.{FloatMath, summarize}

module _ {F : Type 0} (lt : F → F → Bool) where
  -- What the order of numbers has, among the floats that are numbers; NaN is not one.
  pub record IsOrder (Num : F → Type 0) : Type 0 where
    pub asymmetric : (a b : F) → Num a → Num b → lt a b ≡ true → lt b a ≡ false
    pub cotransitive :
        (a b c : F) → Num a → Num b → Num c → lt b a ≡ false → lt c b ≡ false → lt c a ≡ false

  abbrev Ascending : List F → Type 0
  Ascending [] = Unit
  Ascending (x ∷ xs) = (count_if (λ v. lt v x) xs ≡ 0) × Ascending xs

  module _ (Num : F → Type 0) (o : IsOrder Num) where
    none_below :
        (x y : F) (ys : List F)
        → Num x
        → Num y
        → All Num ys
        → lt y x ≡ false
        → count_if (λ v. lt v y) ys ≡ 0
        → count_if (λ v. lt v x) ys ≡ 0
    none_below x y [] nx ny n h k = refl
    none_below x y (v ∷ vs) nx ny n h k =
        ground (arith, o.cotransitive x y v nx ny n.0 h, none_below x y vs nx ny n.1 h)

    insert_by-All : (x : F) (ys : List F) → Num x → All Num ys → All Num (insert_by lt x ys)
    unfolding insert_by
    insert_by-All x [] nx n = (nx, tt)
    insert_by-All x (y ∷ ys) nx n = elim (Bool-cases (lt y x)) [
      | inl below ↦ rw below (n.0, insert_by-All x ys nx n.1)
      | inr other ↦ rw other (nx, n)
    ]

    sort_by-All : (xs : List F) → All Num xs → All Num (sort_by lt xs)
    unfolding sort_by
    sort_by-All [] n = tt
    sort_by-All (x ∷ xs) n = insert_by-All x (sort_by lt xs) n.0 (sort_by-All xs n.1)

    insert_by-Ascending :
        (x : F) (ys : List F) → Num x → All Num ys → Ascending ys → Ascending (insert_by lt x ys)
    unfolding insert_by
    insert_by-Ascending x [] nx n s = (refl, tt)
    insert_by-Ascending x (y ∷ ys) nx n s = ground (
      arith,
      count_if-insert_by lt (λ v. lt v y) x ys,
      insert_by-Ascending x ys nx n.1 s.1,
      o.asymmetric y x n.0 nx,
      none_below x y ys nx n.0 n.1,
    )

    sort_by-Ascending : (xs : List F) → All Num xs → Ascending (sort_by lt xs)
    unfolding sort_by
    sort_by-Ascending [] n = tt
    sort_by-Ascending (x ∷ xs) n =
        insert_by-Ascending x (sort_by lt xs) n.0 (sort_by-All xs n.1) (sort_by-Ascending xs n.1)

    irreflexive : (b : Bool) (x : F) → Num x → lt x x ≡ b → lt x x ≡ false
    irreflexive true x nx h = o.asymmetric x x nx nx h
    irreflexive false x nx h = h

    first_lowest :
        (xs : List F) (z : F)
        → All Num xs
        → Ascending xs
        → count_if (λ v. lt v (get_or xs 0 z)) xs ≡ 0
    first_lowest [] z n s = refl
    first_lowest (x ∷ xs) z n s = ground (arith, irreflexive (lt x x) x n.0 refl)

    at_not_below :
        (x : F) (xs : List F) (i : ℕ) (z : F)
        → i < length xs
        → count_if (λ v. lt v x) xs ≡ 0
        → lt (get_or xs i z) x ≡ false
    at_not_below x [] i z h k = absurd (omega arith)
    at_not_below x (y ∷ ys) zero z h k = ground arith
    at_not_below x (y ∷ ys) (suc i) z h k = at_not_below x ys i z (omega arith) (ground arith)

    last_highest :
        (x : F) (xs : List F) (z : F)
        → All Num (x ∷ xs)
        → Ascending (x ∷ xs)
        → count_if (λ v. lt (get_or (x ∷ xs) (length xs) z) v) (x ∷ xs) ≡ 0
    last_highest x [] z n s = ground (arith, irreflexive (lt x x) x n.0 refl)
    last_highest x (y ∷ ys) z n s = ground (
      arith,
      last_highest y ys z n.1 s.1,
      at_not_below x (y ∷ ys) (length ys) z (omega arith) s.0,
    )

    last_any :
        (xs : List F) (i : ℕ) (z : F)
        → All Num xs
        → Ascending xs
        → suc i ≡ length xs
        → count_if (λ v. lt (get_or xs i z) v) xs ≡ 0
    last_any [] i z n s h = refl
    last_any (x ∷ xs) i z n s h =
        let same : i ≡ length xs = omega arith in
        ap (λ k. count_if (λ v. lt (get_or (x ∷ xs) k z) v) (x ∷ xs)) same ∙ last_highest x xs z n s

module _ {F : Type 0} ⦃d : Double F⦄ (m : FloatMath F) where
  -- The summary of values that are all numbers, if `<` orders numbers: none is below its minimum, none is above its
  -- maximum, and its count is their number.
  pub summarize_range :
      (Num : F → Type 0) (values : List F)
      → IsOrder d.flt Num
      → All Num values
      → let s = summarize m values in
        (count_if (λ v. d.flt v s.min) values ≡ 0)
        × (count_if (λ v. d.flt s.max v) values ≡ 0)
        × (s.count ≡ length values)
  unfolding summarize
  summarize_range Num [] o nums = (refl, refl, refl)
  summarize_range Num (v ∷ vs) o nums =
      let sorted = sort_by d.flt (v ∷ vs) in
      let asc = sort_by-Ascending d.flt Num o (v ∷ vs) nums in
      let sorted_nums = sort_by-All d.flt Num o (v ∷ vs) nums in
      let z = d.of_nat 0 in
      let n = length-sort_by d.flt (v ∷ vs) in
      (
        sym (count_if-sort_by d.flt (λ x. d.flt x (get_or sorted 0 z)) (v ∷ vs))
            ∙ first_lowest d.flt Num o sorted z sorted_nums asc,
        sym (count_if-sort_by d.flt (λ x. d.flt (get_or sorted (length sorted - 1) z) x) (v ∷ vs))
            ∙ last_any d.flt Num o sorted (length sorted - 1) z sorted_nums asc (omega (arith, n)),
        n,
      )
