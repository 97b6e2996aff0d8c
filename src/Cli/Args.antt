-- ===== src/Cli/Args.antt =====
-- cmd/bench/commands.go: the lists that the flags hold, and numbers in them. `Split`, `TrimSpace` and
-- `Atoi` of Go's library are written out as far as they are used.
pub mod RoundTrip
pub mod Index
use browser_analysis.Prelude.{
  ℕ, zero, suc, ◌+◌, ◌*◌, ◌-◌, ◌^◌, Bool, true, false, not, ◌&&◌, ◌||◌, List, [], ◌∷◌, Option, none,
  some, length, ltb, leb, ◌==◌, if◌then◌else◌,
}
use browser_analysis.Prelude.Int.{ℤ, pos, negsuc}
use browser_analysis.Prelude.Text.{Text, codes, eq_text, is_empty}

-- unicode.IsSpace.
pub is_space : ℕ → Bool
is_space c =
    leb 9 c && leb c 13
    || c == 0x20
    || c == 0x85
    || c == 0xA0
    || c == 0x1680
    || leb 0x2000 c && leb c 0x200A
    || c == 0x2028
    || c == 0x2029
    || c == 0x202F
    || c == 0x205F
    || c == 0x3000

pub trim_left : Text → Text
unfolding is_space
trim_left [] = []
trim_left (c ∷ s) = let rest = trim_left s in if is_space c then rest else c ∷ s

pub trim_right : Text → Text
unfolding is_space
trim_right [] = []
trim_right (c ∷ s) = let rest = trim_right s in if is_space c && is_empty rest then [] else c ∷ rest

-- strings.TrimSpace.
pub trim_space : Text → Text
unfolding trim_left trim_right
trim_space s = trim_right (trim_left s)

abbrev pub onto_first : ℕ → List Text → List Text
onto_first c [] = (c ∷ []) ∷ []
onto_first c (p ∷ ps) = (c ∷ p) ∷ ps

-- strings.Split(s, ","): one part more than there are commas.
pub split_commas : Text → List Text
split_commas [] = [] ∷ []
split_commas (c ∷ s) =
    let rest = split_commas s in if c == b',' then [] ∷ rest else onto_first c rest

-- The loop of `parseList`.
pub keep_parts : List Text → List Text
unfolding trim_space
keep_parts [] = []
keep_parts (p ∷ ps) =
    let name = trim_space p in
    let rest = keep_parts ps in if not (is_empty name) then name ∷ rest else rest

unfoldable pub parse_list : Text → List Text
unfolding keep_parts split_commas
parse_list s = keep_parts (split_commas s)

-- The loop of `levelIdx`, from index `i` on; `last` is `len(levels) - 1`.
pub index_from : ℕ → ℕ → List Text → Text → ℕ
index_from last i [] s = last
index_from last i (l ∷ ls) s =
    let later = index_from last (suc i) ls s in if eq_text l s then i else later

unfoldable pub level_idx : List Text → Text → ℕ
unfolding index_from
level_idx levels s = index_from (length levels - 1) 0 levels s

-- The digits of strconv.Atoi: `none` if there is another character.
pub digits_from : ℕ → Text → Option ℕ
digits_from acc [] = some acc
digits_from acc (c ∷ s) =
    let rest = digits_from (acc * 10 + (c - b'0')) s in
    if leb b'0' c && leb c b'9' then rest else none

pub magnitude : Text → Option ℕ
unfolding digits_from
magnitude [] = none
magnitude (c ∷ s) = digits_from 0 (c ∷ s)

-- What is out of the range of int64 is an error, with the end of the range as its value.
abbrev plain : Option ℕ → ℤ × Bool
plain none = (pos 0, false)
plain (some n) = if ltb n (2 ^ 63) then (pos n, true) else (pos (2 ^ 63 - 1), false)

abbrev negated : Option ℕ → ℤ × Bool
negated none = (pos 0, false)
negated (some n) =
    if n == 0
    then (pos 0, true)
    else if leb n (2 ^ 63)
    then (negsuc (n - 1), true)
    else (negsuc (2 ^ 63 - 1), false)

-- strconv.Atoi: its value, and whether there is no error.
unfoldable pub atoi : Text → ℤ × Bool
unfolding magnitude
atoi [] = (pos 0, false)
atoi (c ∷ s) =
    if c == b'-'
    then negated (magnitude s)
    else if c == b'+'
    then plain (magnitude s)
    else plain (magnitude (c ∷ s))
