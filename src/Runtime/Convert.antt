-- ===== src/Runtime/Convert.antt =====
-- Python's conversions of a `Value`: truth, `int()`, and reading a dict.
use Prim.Native.Char.{code}
use text.Mathlib.Text.{◌==◌ as str_eq}
use test_cusa.Prelude.{
  ℕ, zero, ◌+◌, ◌-◌, ◌*◌, ◌/◌, ◌%◌, ltb, suc, String, Bool, true, false, not, ◌&&◌, ◌||◌, Option,
  none, some, List, [], ◌∷◌, leb, ◌==◌, if◌then◌else◌,
}
use test_cusa.Prelude.Int.{ℤ, pos, negsuc, ◌-ℤ◌}
use test_cusa.Runtime.External.{Value, Dict}

-- `bool(v)`
unfoldable pub truthy : Value → Bool
truthy Value.null = false
truthy (Value.boolean b) = b
truthy (Value.number (pos zero)) = false
truthy (Value.number (pos (suc n))) = true
truthy (Value.number (negsuc n)) = true
truthy (Value.text s) = not (str_eq s "")
truthy (Value.compound nonempty) = nonempty

-- `d.get(name)`
unfoldable pub get : String → Dict → Option Value
get name [] = none
get name ((n, v) ∷ d) = if str_eq name n then some v else get name d

-- `d.get(name, default)`
unfoldable pub get_default : String → Value → Dict → Value
unfolding get
get_default name v d = elim (get name d) [ none ↦ v | some x ↦ x ]

abbrev pub codes : String → List ℕ
codes String.[] = []
codes (String.◌∷◌ c s) = code c ∷ codes s

is_space : ℕ → Bool
is_space c = c == b' ' || leb 9 c && leb c 13

is_digit : ℕ → Bool
is_digit c = leb b'0' c && leb c b'9'

drop_spaces : List ℕ → List ℕ
unfolding is_space
drop_spaces [] = []
drop_spaces (c ∷ s) = if is_space c then drop_spaces s else c ∷ s

all_spaces : List ℕ → Bool
unfolding is_space
all_spaces [] = true
all_spaces (c ∷ s) = is_space c && all_spaces s

-- The digits of `int(s)` after the first: a digit, one underscore before a digit, or spaces up to
-- the end.
digits : (after_underscore : Bool) → ℕ → List ℕ → Option ℕ
unfolding is_digit all_spaces
digits u n [] = if u then none else some n
digits u n (c ∷ s) =
    let next = digits false (n * 10 + (c - b'0')) s in
    let skip = digits true n s in
    if is_digit c
    then next
    else if c == b'_' && not u
    then skip
    else if not u && all_spaces (c ∷ s)
    then some n
    else none

unsigned : List ℕ → Option ℕ
unfolding digits
unsigned [] = none
unsigned (c ∷ s) = if is_digit c then digits false (c - b'0') s else none

signed : List ℕ → Option ℤ
unfolding unsigned
signed [] = none
signed (c ∷ s) =
    if c == b'-'
    then elim (unsigned s) [ none ↦ none | some n ↦ some (pos 0 -ℤ pos n) ]
    else if c == b'+'
    then elim (unsigned s) [ none ↦ none | some n ↦ some (pos n) ]
    else elim (unsigned (c ∷ s)) [ none ↦ none | some n ↦ some (pos n) ]

-- `int(s)` of a text, for its ASCII digits and spaces.
unfoldable pub parse_int : String → Option ℤ
unfolding signed drop_spaces ◌-ℤ◌
parse_int s = signed (drop_spaces (codes s))

-- `int(t)` of a time in microseconds, in whole seconds: cut towards zero.
unfoldable pub whole_seconds : ℤ → ℤ
unfolding ◌-ℤ◌
whole_seconds (pos n) = pos (n / 1_000_000)
whole_seconds (negsuc n) = pos 0 -ℤ pos ((n + 1) / 1_000_000)

-- The nearest number of steps, and the even one of two that are as near.
abbrev half_even : (step : ℕ) → ℕ → ℕ
half_even step n =
    let q = n / step in
    let r = n % step in
    if ltb (2 * r) step then q else if ltb step (2 * r) then q + 1 else q + q % 2

-- `round(x, digits)`: from microseconds to steps, of 100 microseconds for four digits, of 10,000
-- for two.
unfoldable pub round : (step : ℕ) → ℤ → ℤ
unfolding ◌-ℤ◌
round step (pos n) = pos (half_even step n)
round step (negsuc n) = pos 0 -ℤ pos (half_even step (n + 1))
