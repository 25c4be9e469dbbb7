-- ===== src/Runtime/Text.antt =====
-- Python's `split` and `join` of a text at a separating character, which undo one another.
use Prim.Native.Char.{Char, code}
use Prim.Native.String.{◌++◌ as str_append}
use text.Mathlib.TextEquality.{Char-path}
use text.Mathlib.TextLemmas.{nil-append, cons-append}
use mathlib.Core.Path.{ap₂}
use test_cusa.Prelude.{
  ◌≡◌, ◌∙◌, sym, ap, refl, ◌≢◌, String, List, [], ◌∷◌, arith, Bool-cases, inl, inr, All, ◌==◌,
  if◌then◌else◌,
}

-- Puts a character in front of the first part.
abbrev pub onto_first : Char → List String → List String
onto_first c [] = String.◌∷◌ c "" ∷ []
onto_first c (part ∷ parts) = String.◌∷◌ c part ∷ parts

module _ (sep : Char) where
  -- `text.split(sep)`
  unfoldable pub split : String → List String
  split String.[] = "" ∷ []
  split (String.◌∷◌ c s) =
      let rest = split s in if code c == code sep then "" ∷ rest else onto_first c rest

  -- `sep.join(parts)`
  unfoldable pub join : List String → String
  join [] = ""
  join (part ∷ []) = part
  join (part ∷ next ∷ parts) = str_append part (String.◌∷◌ sep (join (next ∷ parts)))

  -- The separator does not stand in the text.
  abbrev pub Lacks : String → Type 0
  Lacks String.[] = Unit
  Lacks (String.◌∷◌ c s) = (code c ≢ code sep) × Lacks s

  join-onto_first :
      (c : Char) (parts : List String)
      → parts ≢ []
      → join (onto_first c parts) ≡ String.◌∷◌ c (join parts)
  unfolding join
  join-onto_first c [] h = absurd (h refl)
  join-onto_first c (p ∷ []) h = refl
  join-onto_first c (p ∷ q ∷ parts) h = cons-append c p _

  pub join-cons :
      (part : String) (parts : List String)
      → parts ≢ []
      → join (part ∷ parts) ≡ str_append part (String.◌∷◌ sep (join parts))
  unfolding join
  join-cons part [] h = absurd (h refl)
  join-cons part (p ∷ parts) h = refl

  onto_first-ne-nil : (c : Char) (parts : List String) → onto_first c parts ≢ []
  onto_first-ne-nil c [] = λ h. cc
  onto_first-ne-nil c (p ∷ parts) = λ h. cc

  pub split-ne-nil : (s : String) → split s ≢ []
  unfolding split
  split-ne-nil String.[] = λ h. cc
  split-ne-nil (String.◌∷◌ c s) = elim (Bool-cases (code c == code sep)) [
    | inl here ↦ rw here (λ h. cc)
    | inr other ↦ rw other (onto_first-ne-nil c (split s))
  ]

  -- Joining what was split gives the text back.
  pub join-split : (s : String) → join (split s) ≡ s
  unfolding split
  join-split String.[] = unfold join in refl
  join-split (String.◌∷◌ c s) = elim (Bool-cases (code c == code sep)) [
    | inl here ↦
        let is_sep : c ≡ sep = Char-path c sep (ground arith) in
        rw here (
          join-cons "" (split s) (split-ne-nil s)
          ∙ nil-append _
          ∙ ap₂ String.◌∷◌ (sym is_sep) (join-split s))
    | inr other ↦
        rw other (join-onto_first c (split s) (split-ne-nil s) ∙ ap (String.◌∷◌ c) (join-split s))
  ]

  split_sep : (t : String) → split (String.◌∷◌ sep t) ≡ "" ∷ split t
  unfolding split
  split_sep t = elim (Bool-cases (code sep == code sep)) [
    | inl same ↦ rw same refl
    | inr other ↦ absurd (ground arith)
  ]

  -- A text without the separator, in front of one, is a part of its own.
  pub split-append :
      (s t : String) → Lacks s → split (str_append s (String.◌∷◌ sep t)) ≡ s ∷ split t
  unfolding split
  split-append String.[] t h = rw (nil-append (String.◌∷◌ sep t)) (split_sep t)
  split-append (String.◌∷◌ c s) t h = rw (cons-append c s (String.◌∷◌ sep t)) (
      rw (split-append s t h.1) (elim (Bool-cases (code c == code sep)) [
        | inl here ↦ absurd (h.0 (ground arith))
        | inr other ↦ rw other
      ]))

  pub split_plain : (s : String) → Lacks s → split s ≡ s ∷ []
  unfolding split
  split_plain String.[] h = refl
  split_plain (String.◌∷◌ c s) h = elim (Bool-cases (code c == code sep)) [
    | inl here ↦ absurd (h.0 (ground arith))
    | inr other ↦ rw (other, split_plain s h.1) refl
  ]

  -- Splitting what was joined gives the parts back, if the separator stands in none of them.
  pub split-join :
      (p : String) (ps : List String) → All Lacks (p ∷ ps) → split (join (p ∷ ps)) ≡ p ∷ ps
  unfolding join
  split-join p [] h = split_plain p h.0
  split-join p (q ∷ qs) h = split-append p (join (q ∷ qs)) h.0 ∙ ap (◌∷◌ p) (split-join q qs h.1)
