-- ===== src/Prelude/Int.antt =====
-- Signed integers over the native numbers: times in microseconds, ages, tokens.
use test_cusa.Prelude.{
  Option, none, some, ◌≢◌, refl, ap, ℕ_discrete, ℕ, suc, ◌+◌, ◌-◌, ◌*◌, ◌≤◌, ◌<◌, ◌≡◌, Bool, arith,
  ltb, leb, if◌then◌else◌,
}

-- `negsuc n` is -(n + 1).
pub data ℤ : Type 0 where
  pos : ℕ → ℤ
  negsuc : ℕ → ℤ

abbrev pub pos_part : ℤ → ℕ
pos_part (pos n) = n
pos_part (negsuc n) = 0

abbrev pub neg_part : ℤ → ℕ
neg_part (pos n) = 0
neg_part (negsuc n) = suc n

-- a - b, as an integer.
abbrev pub sub_ℕ : ℕ → ℕ → ℤ
sub_ℕ a b = if leb b a then pos (a - b) else negsuc (b - a - 1)

infixl 65 ◌+ℤ◌ ◌-ℤ◌
infix 50 ◌≤ℤ◌ ◌<ℤ◌
unfoldable pub ◌+ℤ◌ : ℤ → ℤ → ℤ
a +ℤ b = sub_ℕ (pos_part a + pos_part b) (neg_part a + neg_part b)

unfoldable pub ◌-ℤ◌ : ℤ → ℤ → ℤ
a -ℤ b = sub_ℕ (pos_part a + neg_part b) (neg_part a + pos_part b)

-- n * b, for a natural factor.
unfoldable pub scale : ℕ → ℤ → ℤ
scale n b = sub_ℕ (n * pos_part b) (n * neg_part b)

abbrev pub ◌≤ℤ◌ : ℤ → ℤ → Type 0
a ≤ℤ b = pos_part a + neg_part b ≤ pos_part b + neg_part a

abbrev pub ◌<ℤ◌ : ℤ → ℤ → Type 0
a <ℤ b = pos_part a + neg_part b < pos_part b + neg_part a

abbrev pub ltb_ℤ : ℤ → ℤ → Bool
ltb_ℤ a b = ltb (pos_part a + neg_part b) (pos_part b + neg_part a)

abbrev pub leb_ℤ : ℤ → ℤ → Bool
leb_ℤ a b = leb (pos_part a + neg_part b) (pos_part b + neg_part a)

abbrev pub min_ℤ : ℤ → ℤ → ℤ
min_ℤ a b = if leb_ℤ a b then a else b

-- One lemma for each operation lets `omega` work with the operations shut.
pub +ℤ_parts :
    (a b : ℤ)
    → pos_part (a +ℤ b) + neg_part a + neg_part b ≡ neg_part (a +ℤ b) + pos_part a + pos_part b
unfolding ◌+ℤ◌
+ℤ_parts a b = ground arith

pub -ℤ_parts :
    (a b : ℤ)
    → pos_part (a -ℤ b) + neg_part a + pos_part b ≡ neg_part (a -ℤ b) + pos_part a + neg_part b
unfolding ◌-ℤ◌
-ℤ_parts a b = ground arith

pub scale_parts :
    (n : ℕ) (b : ℤ) → pos_part (scale n b) + n * neg_part b ≡ neg_part (scale n b) + n * pos_part b
unfolding scale
scale_parts n b = ground arith

pub eq_of_parts : (a b : ℤ) → pos_part a + neg_part b ≡ pos_part b + neg_part a → a ≡ b
eq_of_parts a b h = ground arith

pub ruleset int_laws = (arith, +ℤ_parts, -ℤ_parts, eq_of_parts)

pos_inj : {a b : ℕ} → pos a ≡ pos b → a ≡ b
pos_inj e = cc

negsuc_inj : {a b : ℕ} → negsuc a ≡ negsuc b → a ≡ b
negsuc_inj e = cc

pos-ne-negsuc : (a b : ℕ) → pos a ≢ negsuc b
pos-ne-negsuc a b = λ e. cc

negsuc-ne-pos : (a b : ℕ) → negsuc a ≢ pos b
negsuc-ne-pos a b = λ e. cc

unfoldable pub ℤ_discrete : Discrete ℤ
unfolding pos_inj negsuc_inj pos-ne-negsuc negsuc-ne-pos
ℤ_discrete (pos a) (pos b) = elim (ℕ_discrete a b) [
  | yes same ↦ yes (ap pos same)
  | no other ↦ no (λ e. other (pos_inj e))
]
ℤ_discrete (pos a) (negsuc b) = no (pos-ne-negsuc a b)
ℤ_discrete (negsuc a) (pos b) = no (negsuc-ne-pos a b)
ℤ_discrete (negsuc a) (negsuc b) = elim (ℕ_discrete a b) [
  | yes same ↦ yes (ap negsuc same)
  | no other ↦ no (λ e. other (negsuc_inj e))
]

some_inj : (a b : ℤ) → some a ≡ some b → a ≡ b
some_inj a b e = cc

none-ne-some : (a : ℤ) → ◌≢◌ {A = Option ℤ} none (some a)
none-ne-some a = λ e. cc

some-ne-none : (a : ℤ) → ◌≢◌ {A = Option ℤ} (some a) none
some-ne-none a = λ e. cc

-- Equality of optional integers, such as versions.
unfoldable pub option_discrete : Discrete (Option ℤ)
unfolding some_inj none-ne-some some-ne-none ℤ_discrete
option_discrete none none = yes refl
option_discrete none (some b) = no (none-ne-some b)
option_discrete (some a) none = no (some-ne-none a)
option_discrete (some a) (some b) = elim (ℤ_discrete a b) [
  | yes same ↦ yes (ap some same)
  | no other ↦ no (λ e. other (some_inj a b e))
]
