-- ===== src/Contexts/Sets.antt =====
-- A Go map used as a set of numbers, as a list without repetition.
use browser_analysis.Prelude.{
  ℕ, suc, ◌+◌, ◌≡◌, refl, Bool, false, ◌||◌, List, [], ◌∷◌, ◌++◌, arith, length, ◌==◌,
  if◌then◌else◌,
}

abbrev pub mem : ℕ → List ℕ → Bool
mem c [] = false
mem c (x ∷ xs) = x == c || mem c xs

-- `m[c] = true`.
unfoldable pub put : ℕ → List ℕ → List ℕ
put c xs = if mem c xs then xs else c ∷ xs

-- `delete(m, c)`.
unfoldable pub delete : ℕ → List ℕ → List ℕ
delete c [] = []
delete c (x ∷ xs) = let rest = delete c xs in if x == c then rest else x ∷ rest

-- How often a context is in a list.
abbrev pub count : ℕ → List ℕ → ℕ
count c [] = 0
count c (x ∷ xs) = let rest = count c xs in if x == c then suc rest else rest

pub count-append : (c : ℕ) (xs ys : List ℕ) → count c (xs ++ ys) ≡ count c xs + count c ys
count-append c [] ys = omega arith
count-append c (x ∷ xs) ys = ground (arith, count-append c xs ys)

pub mem-count : (c : ℕ) (xs : List ℕ) → count c xs ≡ 0 → mem c xs ≡ false
mem-count c [] h = refl
mem-count c (x ∷ xs) h = ground (arith, mem-count c xs)

pub count-put_fresh :
    (a c : ℕ) (xs : List ℕ) → count c xs ≡ 0 → count a (put c xs) ≡ count a (c ∷ xs)
unfolding put
count-put_fresh a c xs h = ground (arith, mem-count c xs h)

pub length-put_fresh : (c : ℕ) (xs : List ℕ) → count c xs ≡ 0 → length (put c xs) ≡ suc (length xs)
unfolding put
length-put_fresh c xs h = ground (arith, mem-count c xs h)

pub count-delete :
    (a c : ℕ) (xs : List ℕ) → count a (delete c xs) ≡ (if a == c then 0 else count a xs)
unfolding delete
count-delete a c [] = ground arith
count-delete a c (x ∷ xs) = ground (arith, count-delete a c xs)

pub length-delete : (c : ℕ) (xs : List ℕ) → length (delete c xs) + count c xs ≡ length xs
unfolding delete
length-delete c [] = omega arith
length-delete c (x ∷ xs) = ground (arith, length-delete c xs)
