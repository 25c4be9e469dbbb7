-- ===== src/Vault/Paths.antt =====
-- What `_parse_kv2_path` of app/vault_client.py makes of a path.
use Prim.Native.String.{◌++◌ as str_append}
use text.Mathlib.Text.{◌==◌ as str_eq}
use text.Mathlib.TextEquality.{eq_iff}
use test_cusa.Prelude.{◌≡◌, ◌∙◌, ap, refl, ◌≢◌, String, List, [], ◌∷◌, arith, Bool-cases, inl, inr}
use test_cusa.Runtime.Text.{
  split, join, Lacks, split-ne-nil, join-split, split-append, join-cons, split_plain,
}
use test_cusa.Vault.Path.{parse_parts, parse_kv2_path}

-- `f"{s}/{t}"`
infixr 66 ◌//◌
abbrev pub ◌//◌ : String → String → String
s // t = str_append s (String.◌∷◌ "/" t)

-- No slash stands in the text.
abbrev pub IsPlain : String → Type 0
IsPlain = Lacks "/"

parse_parts_data :
    (mount : String) (parts : List String)
    → parts ≢ []
    → parse_parts (mount ∷ "data" ∷ parts) ≡ (mount, join "/" parts)
unfolding parse_parts
parse_parts_data mount [] h = absurd (h refl)
parse_parts_data mount (p ∷ parts) h = refl

parse_parts_plain :
    (mount second : String) (parts : List String)
    → second ≢ "data"
    → parse_parts (mount ∷ second ∷ parts) ≡ (mount, join "/" (second ∷ parts))
unfolding parse_parts
parse_parts_plain mount second [] h = refl
parse_parts_plain mount second (p ∷ parts) h = elim (Bool-cases (str_eq second "data")) [
  | inl same ↦ absurd (h ((eq_iff second "data").0 same))
  | inr other ↦ rw other
]

-- A path is taken apart at its first slash, and the second part `data` of three or more is left
-- out; whatever else follows the mount point is kept as it stands, slashes included. A path without
-- a slash is a mount point with an empty path, and of two parts the second one is the path, also
-- where it is `data`.
pub parse_kv2_path_lem :
    (mount second rest : String)
    → IsPlain mount
    → IsPlain second
    → (parse_kv2_path mount ≡ (mount, ""))
      × (parse_kv2_path (mount // second) ≡ (mount, second))
      × (parse_kv2_path (mount // "data" // rest) ≡ (mount, rest))
      × (second ≢ "data" → parse_kv2_path (mount // second // rest) ≡ (mount, second // rest))
unfolding parse_kv2_path parse_parts join
parse_kv2_path_lem mount second rest h k = (
  rw (split_plain "/" mount h) refl,
  rw (split-append "/" mount second h, split_plain "/" second k) refl,
  rw (split-append "/" mount ("data" // rest) h, split-append "/" "data" rest (omega arith))
      (parse_parts_data mount (split "/" rest) (split-ne-nil "/" rest)
        ∙ ap (λ r. (mount, r)) (join-split "/" rest)),
  λ other.
      rw (split-append "/" mount (second // rest) h, split-append "/" second rest k)
        (parse_parts_plain mount second (split "/" rest) other
          ∙ ap (λ r. (mount, r))
              (join-cons "/" second (split "/" rest) (split-ne-nil "/" rest)
                ∙ ap (◌//◌ second) (join-split "/" rest))),
)
