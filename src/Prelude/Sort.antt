-- ===== src/Prelude/Sort.antt =====
-- Go's package sort, by insertion: `lt` is the comparison that the program hands over.
use Prim.Native.Nat.{ℕ, zero, suc, ◌≤◌, ◌<◌}
use mathlib.Core.Path.{◌≡◌, refl, ◌∙◌}
use mathlib.Core.Bool.{Bool}
use mathlib.Core.List.{List, [], ◌∷◌}
use native.Mathlib.Omega.{arith}
use browser_analysis.Prelude.Tests.{ltb, leb, if◌then◌else◌}
use browser_analysis.Prelude.Lists.{length, get_or, count_if, All}

module _ {ℓ} {A : Type ℓ} (lt : A → A → Bool) where
  unfoldable pub insert_by : A → List A → List A
  insert_by x [] = x ∷ []
  insert_by x (y ∷ ys) = let rest = insert_by x ys in if lt y x then y ∷ rest else x ∷ y ∷ ys

  unfoldable pub sort_by : List A → List A
  unfolding insert_by
  sort_by [] = []
  sort_by (x ∷ xs) = insert_by x (sort_by xs)

  pub count_if-insert_by :
      (p : A → Bool) (x : A) (ys : List A) → count_if p (insert_by x ys) ≡ count_if p (x ∷ ys)
  unfolding insert_by
  count_if-insert_by p x [] = refl
  count_if-insert_by p x (y ∷ ys) = ground (arith, count_if-insert_by p x ys)

  -- Sorting keeps every entry, as often as it occurs.
  pub count_if-sort_by : (p : A → Bool) (xs : List A) → count_if p (sort_by xs) ≡ count_if p xs
  unfolding sort_by
  count_if-sort_by p [] = refl
  count_if-sort_by p (x ∷ xs) =
      count_if-insert_by p x (sort_by xs) ∙ ground (arith, count_if-sort_by p xs)

  length-insert_by : (x : A) (ys : List A) → length (insert_by x ys) ≡ suc (length ys)
  unfolding insert_by
  length-insert_by x [] = refl
  length-insert_by x (y ∷ ys) = ground (arith, length-insert_by x ys)

  pub length-sort_by : (xs : List A) → length (sort_by xs) ≡ length xs
  unfolding sort_by
  length-sort_by [] = refl
  length-sort_by (x ∷ xs) = omega (arith, length-insert_by x (sort_by xs), length-sort_by xs)

-- Ascending: every entry is at most all that follow.
abbrev pub IsSorted : List ℕ → Type 0
IsSorted [] = Unit
IsSorted (x ∷ xs) = All (λ y. x ≤ y) xs × IsSorted xs

All-insert_by :
    (n x : ℕ) (ys : List ℕ) → n ≤ x → All (λ y. n ≤ y) ys → All (λ y. n ≤ y) (insert_by ltb x ys)
unfolding insert_by
All-insert_by n x [] h a = (h, tt)
All-insert_by n x (y ∷ ys) h a = ground (arith, All-insert_by n x ys h a.1)

All-le_trans : (m n : ℕ) (ys : List ℕ) → m ≤ n → All (λ y. n ≤ y) ys → All (λ y. m ≤ y) ys
All-le_trans m n [] h a = tt
All-le_trans m n (y ∷ ys) h a = (omega arith, All-le_trans m n ys h a.1)

insert_by-IsSorted : (x : ℕ) (ys : List ℕ) → IsSorted ys → IsSorted (insert_by ltb x ys)
unfolding insert_by
insert_by-IsSorted x [] s = (tt, tt)
insert_by-IsSorted x (y ∷ ys) s =
    ground (arith, All-insert_by y x ys, insert_by-IsSorted x ys s.1, All-le_trans x y ys)

pub sort_by-IsSorted : (xs : List ℕ) → IsSorted (sort_by ltb xs)
unfolding sort_by
sort_by-IsSorted [] = tt
sort_by-IsSorted (x ∷ xs) = insert_by-IsSorted x (sort_by ltb xs) (sort_by-IsSorted xs)

All-get_or :
    (n : ℕ) (xs : List ℕ) (i d : ℕ) → All (λ y. n ≤ y) xs → i < length xs → n ≤ get_or xs i d
All-get_or n [] i d a h = elim h [ ]
All-get_or n (x ∷ xs) zero d a h = a.0
All-get_or n (x ∷ xs) (suc i) d a h = All-get_or n xs i d a.1 (omega arith)

none_below : (n : ℕ) (xs : List ℕ) → All (λ y. n ≤ y) xs → count_if (λ v. ltb v n) xs ≡ 0
none_below n [] a = refl
none_below n (x ∷ xs) a = ground (arith, none_below n xs a.1)

-- At index `i` of an ascending list: more than `i` entries are at most the one there, and no more
-- than `i` are below it.
pub count-le_at :
    (xs : List ℕ) (i d : ℕ)
    → IsSorted xs
    → i < length xs
    → suc i ≤ count_if (λ v. leb v (get_or xs i d)) xs
count-le_at [] i d s h = elim h [ ]
count-le_at (x ∷ xs) zero d s h = ground arith
count-le_at (x ∷ xs) (suc i) d s h = ground (arith, All-get_or x xs i d s.0, count-le_at xs i d s.1)

pub count-lt_at :
    (xs : List ℕ) (i d : ℕ)
    → IsSorted xs
    → i < length xs
    → count_if (λ v. ltb v (get_or xs i d)) xs ≤ i
count-lt_at [] i d s h = elim h [ ]
count-lt_at (x ∷ xs) zero d s h = ground (arith, none_below x xs s.0)
count-lt_at (x ∷ xs) (suc i) d s h = ground (arith, count-lt_at xs i d s.1)

-- Entries further on are at least as large.
pub get_or_mono :
    (xs : List ℕ) (i j d : ℕ) → IsSorted xs → i ≤ j → j < length xs → get_or xs i d ≤ get_or xs j d
get_or_mono [] i j d s h k = elim k [ ]
get_or_mono (x ∷ xs) zero zero d s h k = omega arith
get_or_mono (x ∷ xs) zero (suc j) d s h k = All-get_or x xs j d s.0 (omega arith)
get_or_mono (x ∷ xs) (suc i) zero d s h k = absurd (omega arith)
get_or_mono (x ∷ xs) (suc i) (suc j) d s h k = get_or_mono xs i j d s.1 (omega arith) (omega arith)
