-- ===== src/Mock/Keys.antt =====
-- `_get_valid_keys`: the keys of an environment variable, separated by commas.
pub mod Reading
use Prim.Native.Char.{Char, code}
use text.Mathlib.Text.{◌==◌ as str_eq}
use test_cusa.Prelude.{
  ℕ, String, Bool, true, false, not, ◌&&◌, ◌||◌, Option, none, some, List, [], ◌∷◌, map, leb, ◌==◌,
  if◌then◌else◌,
}
use test_cusa.Runtime.Text.{split}

-- `c.isspace()`
unfoldable pub is_space : ℕ → Bool
is_space n =
    (leb 9 n && leb n 13)
    || (leb 28 n && leb n 32)
    || (n == 0x85)
    || (n == 0xa0)
    || (n == 0x1680)
    || (leb 0x2000 n && leb n 0x200a)
    || (n == 0x2028)
    || (n == 0x2029)
    || (n == 0x202f)
    || (n == 0x205f)
    || (n == 0x3000)

unfoldable pub strip_left : String → String
strip_left String.[] = ""
strip_left (String.◌∷◌ c s) =
    let rest = strip_left s in if is_space (code c) then rest else String.◌∷◌ c s

unfoldable pub strip_right : String → String
strip_right String.[] = ""
strip_right (String.◌∷◌ c s) =
    let rest = strip_right s in
    if str_eq rest "" && is_space (code c) then "" else String.◌∷◌ c rest

-- `k.strip()`
unfoldable pub strip : String → String
unfolding strip_left strip_right is_space
strip s = strip_right (strip_left s)

-- `[k.strip() for k in parts if k.strip()]`
unfoldable pub clean : List String → List String
unfolding strip
clean [] = []
clean (k ∷ ks) = let rest = clean ks in if str_eq (strip k) "" then rest else strip k ∷ rest

abbrev pub default_keys : String
default_keys = "test-gateway-key-1,test-gateway-key-2"

unfoldable pub get_valid_keys : (variable : Option String) → List String
unfolding clean
get_valid_keys none = clean (split "," default_keys)
get_valid_keys (some raw) = clean (split "," raw)
