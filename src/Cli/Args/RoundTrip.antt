-- ===== src/Cli/Args/RoundTrip.antt =====
-- `parseList` of cmd/bench/commands.go and the text that it reads.
use browser_analysis.Prelude.{
  ℕ, ◌≡◌, refl, Bool, true, false, List, [], ◌∷◌, ◌++◌, arith, All, if◌then◌else◌, ◌==◌, Bool-cases,
  ◌⊎◌, inl, inr, ap, ◌∙◌,
}
use browser_analysis.Prelude.Text.{Text, is_empty}
use browser_analysis.Cli.Args.{
  is_space, trim_left, trim_right, trim_space, split_commas, onto_first, keep_parts, parse_list,
}

abbrev pub has_comma : Text → Bool
has_comma [] = false
has_comma (c ∷ s) = let rest = has_comma s in if c == b',' then true else rest

-- A name that a list can hold: not empty, no space at its ends, no comma.
abbrev pub IsName : Text → Type 0
IsName n = (is_empty n ≡ false) × (trim_space n ≡ n) × (has_comma n ≡ false)

-- strings.Join(names, ",").
abbrev pub join_names : List Text → Text
join_names [] = []
join_names (n ∷ []) = n
join_names (n ∷ m ∷ ms) = n ++ b',' ∷ join_names (m ∷ ms)

trim_right_twice : (s : Text) → trim_right (trim_right s) ≡ trim_right s
unfolding trim_right
trim_right_twice [] = refl
trim_right_twice (c ∷ s) = ground (arith, trim_right_twice s)

trim_left-cases :
    (s : Text)
    → (trim_left s ≡ []) ⊎ ((c : ℕ) × (r : Text) × (trim_left s ≡ c ∷ r) × (is_space c ≡ false))
unfolding trim_left
trim_left-cases [] = inl refl
trim_left-cases (c ∷ s) = elim (Bool-cases (is_space c)) [
  | inl space ↦ rw space (trim_left-cases s)
  | inr other ↦ rw other (inr (c, s, refl, other))
]

trim_left-trim_right :
    (c : ℕ) (r : Text) → is_space c ≡ false → trim_left (trim_right (c ∷ r)) ≡ trim_right (c ∷ r)
unfolding trim_right trim_left
trim_left-trim_right c r h = ground arith

trim_twice : (s : Text) → trim_space (trim_space s) ≡ trim_space s
unfolding trim_space
trim_twice s = elim (trim_left-cases s) [
  | inl e ↦ rw e (unfold trim_right trim_left in refl)
  | inr (c, r, e, h) ↦ rw e (rw (trim_left-trim_right c r h) (trim_right_twice (c ∷ r)))
]

has_comma-trim_left : (s : Text) → has_comma s ≡ false → has_comma (trim_left s) ≡ false
unfolding trim_left
has_comma-trim_left [] h = refl
has_comma-trim_left (c ∷ s) h = ground (arith, has_comma-trim_left s)

has_comma-trim_right : (s : Text) → has_comma s ≡ false → has_comma (trim_right s) ≡ false
unfolding trim_right
has_comma-trim_right [] h = refl
has_comma-trim_right (c ∷ s) h = ground (arith, has_comma-trim_right s)

has_comma-trim_space : (s : Text) → has_comma s ≡ false → has_comma (trim_space s) ≡ false
unfolding trim_space
has_comma-trim_space s h = has_comma-trim_right (trim_left s) (has_comma-trim_left s h)

onto_first_commas :
    (c : ℕ) (ps : List Text)
    → (c == b',') ≡ false
    → All (λ p. has_comma p ≡ false) ps
    → All (λ p. has_comma p ≡ false) (onto_first c ps)
onto_first_commas c [] h k = ground arith
onto_first_commas c (p ∷ ps) h k = ground arith

split_commas_lem : (s : Text) → All (λ p. has_comma p ≡ false) (split_commas s)
unfolding split_commas
split_commas_lem [] = (refl, tt)
split_commas_lem (c ∷ s) = elim (Bool-cases (c == b',')) [
  | inl comma ↦ rw comma (refl, split_commas_lem s)
  | inr other ↦ rw other (onto_first_commas c (split_commas s) other (split_commas_lem s))
]

keep_parts-IsName :
    (ps : List Text) → All (λ p. has_comma p ≡ false) ps → All IsName (keep_parts ps)
unfolding keep_parts
keep_parts-IsName [] h = tt
keep_parts-IsName (p ∷ ps) h = elim (Bool-cases (is_empty (trim_space p))) [
  | inl blank ↦ rw blank (keep_parts-IsName ps h.1)
  | inr named ↦
      rw named ((named, trim_twice p, has_comma-trim_space p h.0), keep_parts-IsName ps h.1)
]

split_name : (n : Text) → has_comma n ≡ false → split_commas n ≡ n ∷ []
unfolding split_commas
split_name [] h = refl
split_name (c ∷ n) h = ground (arith, split_name n)

split_name_comma :
    (n s : Text) → has_comma n ≡ false → split_commas (n ++ b',' ∷ s) ≡ n ∷ split_commas s
unfolding split_commas
split_name_comma [] s h = refl
split_name_comma (c ∷ n) s h = ground (arith, split_name_comma n s)

keep_name : (n : Text) (ps : List Text) → IsName n → keep_parts (n ∷ ps) ≡ n ∷ keep_parts ps
unfolding keep_parts
keep_name n ps h = rw h.1 (rw h.0 refl)

parse-join_names : (names : List Text) → All IsName names → parse_list (join_names names) ≡ names
unfolding parse_list
parse-join_names [] h = unfold split_commas keep_parts trim_space trim_left trim_right in refl
parse-join_names (n ∷ []) h =
    rw (split_name n h.0.2) (keep_name n [] h.0 ∙ unfold keep_parts in refl)
parse-join_names (n ∷ m ∷ ms) h = rw (split_name_comma n (join_names (m ∷ ms)) h.0.2) (
    keep_name n (split_commas (join_names (m ∷ ms))) h.0
    ∙ ap (λ r. n ∷ r) (parse-join_names (m ∷ ms) h.1))

-- `parseList` gives names only: none is empty, has a space at an end, or a comma. It reads
-- back every list of such names that commas join, the empty list too, and so reading what it gave
-- changes nothing.
pub parse_list_names :
    (s : Text)
    → All IsName (parse_list s)
      × ((names : List Text) → All IsName names → parse_list (join_names names) ≡ names)
      × (parse_list (join_names (parse_list s)) ≡ parse_list s)
parse_list_names s = (named, parse-join_names, parse-join_names (parse_list s) named)
  where
    named : All IsName (parse_list s)
    named = unfold parse_list in keep_parts-IsName (split_commas s) (split_commas_lem s)
