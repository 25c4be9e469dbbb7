-- ===== src/Mock/Keys/Reading.antt =====
-- What `_get_valid_keys` of the simulated gateway reads.
use Prim.Native.Char.{code}
use text.Mathlib.Text.{◌==◌ as str_eq}
use text.Mathlib.TextEquality.{eq_iff}
use test_cusa.Prelude.{
  String, false, some, List, [], ◌∷◌, ◌≡◌, refl, ◌∙◌, ap, Bool-cases, inl, inr, All,
}
use test_cusa.Runtime.Text.{join, Lacks, split-join}
use test_cusa.Mock.Keys.{is_space, strip, strip_left, strip_right, clean, get_valid_keys}

-- The last character of a text is no space.
abbrev EndsTight : String → Type 0
EndsTight String.[] = Unit
EndsTight (String.◌∷◌ c s) = (s ≡ "" → is_space (code c) ≡ false) × EndsTight s

-- The first one is none.
abbrev StartsTight : String → Type 0
StartsTight String.[] = Unit
StartsTight (String.◌∷◌ c s) = is_space (code c) ≡ false

-- A key as an operator would write it: not empty, with no comma and no space at its ends.
pub record IsKey (k : String) : Type 0 where
  pub nonempty : str_eq k "" ≡ false
  pub plain : Lacks "," k
  pub starts : StartsTight k
  pub ends : EndsTight k

strip_left_lem : (s : String) → StartsTight s → strip_left s ≡ s
unfolding strip_left
strip_left_lem String.[] h = refl
strip_left_lem (String.◌∷◌ c s) h = rw h refl

strip_right_lem : (s : String) → EndsTight s → strip_right s ≡ s
unfolding strip_right
strip_right_lem String.[] h = refl
strip_right_lem (String.◌∷◌ c s) h = rw (strip_right_lem s h.1) (elim (Bool-cases (str_eq s "")) [
  | inl empty ↦ rw (empty, h.0 ((eq_iff s "").0 empty)) refl
  | inr more ↦ rw more refl
])

strip_lem : (k : String) → IsKey k → strip k ≡ k
unfolding strip
strip_lem k h = rw (strip_left_lem k h.starts) (strip_right_lem k h.ends)

clean_lem : (ks : List String) → All IsKey ks → clean ks ≡ ks
unfolding clean
clean_lem [] h = refl
clean_lem (k ∷ ks) h = rw (strip_lem k h.0, h.0.nonempty) (ap (◌∷◌ k) (clean_lem ks h.1))

plain_lem : (ks : List String) → All IsKey ks → All (Lacks ",") ks
plain_lem [] h = tt
plain_lem (k ∷ ks) h = (h.0.plain, plain_lem ks h.1)

-- Keys that are not empty, without commas and without spaces at their ends, are read back from the
-- variable that lists them between commas, in their order.
pub get_valid_keys-join :
    (k : String) (ks : List String)
    → All IsKey (k ∷ ks)
    → get_valid_keys (some (join "," (k ∷ ks))) ≡ k ∷ ks
unfolding get_valid_keys
get_valid_keys-join k ks h =
    ap clean (split-join "," k ks (plain_lem (k ∷ ks) h)) ∙ clean_lem (k ∷ ks) h
