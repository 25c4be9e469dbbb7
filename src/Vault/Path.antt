-- ===== src/Vault/Path.antt =====
-- `VaultClient._parse_kv2_path`: a path is split at each slash and joined again.
use text.Mathlib.Text.{◌==◌ as str_eq}
use test_cusa.Runtime.Text.{split, join}
use test_cusa.Prelude.{String, List, [], ◌∷◌, if◌then◌else◌}

-- With fewer than three parts the rest is joined as it is; otherwise a second part `data` is
-- dropped.
unfoldable pub parse_parts : List String → String × String
unfolding join
parse_parts [] = ("", "")
parse_parts (mount ∷ []) = (mount, "")
parse_parts (mount ∷ sub ∷ []) = (mount, join "/" (sub ∷ []))
parse_parts (mount ∷ second ∷ third ∷ parts) =
    if str_eq second "data"
    then (mount, join "/" (third ∷ parts))
    else (mount, join "/" (second ∷ third ∷ parts))

unfoldable pub parse_kv2_path : String → String × String
unfolding split parse_parts
parse_kv2_path path = parse_parts (split "/" path)
