-- ===== src/Prelude/Text.antt =====
-- The order of Go's strings: lexicographic by code points, which for valid UTF-8 is by bytes.
use Prim.Native.Char.{Char, code}
use Prim.Native.Nat.{compare, Ordering}
use Prim.Native.String.{String}
use mathlib.Core.Path.{◌≡◌, refl}
use mathlib.Core.Bool.{Bool, true, false, ◌&&◌}
use native.Mathlib.Omega.{arith}
use visus.Prelude.Sort.{IsOrder}
use visus.Prelude.Tests.{◌==◌, nat_eq}

unfoldable pub string_le : String → String → Bool
string_le String.[] t = true
string_le (String.◌∷◌ c s) String.[] = false
string_le (String.◌∷◌ c s) (String.◌∷◌ d t) = elim (compare (code c) (code d)) [
  | Ordering.lt ↦ true
  | Ordering.eq ↦ string_le s t
  | Ordering.gt ↦ false
]

string_le_total : (s t : String) → string_le s t ≡ false → string_le t s ≡ true
unfolding string_le
string_le_total String.[] String.[] h = refl
string_le_total String.[] (String.◌∷◌ d t) h = cc
string_le_total (String.◌∷◌ c s) String.[] h = refl
string_le_total (String.◌∷◌ c s) (String.◌∷◌ d t) h = ground (arith, string_le_total s t)

string_le_trans :
    (s t u : String) → string_le s t ≡ true → string_le t u ≡ true → string_le s u ≡ true
unfolding string_le
string_le_trans String.[] t u p q = refl
string_le_trans (String.◌∷◌ c s) String.[] u p q = cc
string_le_trans (String.◌∷◌ c s) (String.◌∷◌ d t) String.[] p q = cc
string_le_trans (String.◌∷◌ c s) (String.◌∷◌ d t) (String.◌∷◌ f u) p q =
    ground (arith, string_le_trans s t u)

pub string_le-IsOrder : IsOrder string_le
string_le-IsOrder = record { total = string_le_total; trans = string_le_trans }

-- The character of `to` at the place where `c` stands in `from`.
abbrev pub translate : String → String → Char → Char
translate String.[] to c = c
translate (String.◌∷◌ a from) String.[] c = c
translate (String.◌∷◌ a from) (String.◌∷◌ b to) c = elim (compare (code a) (code c)) [
  | Ordering.eq ↦ b
  | _ ↦ translate from to c
]

-- `strings.ToLower` for ASCII letters. No other character has a lower case that stands in a word
-- to which the source compares.
unfoldable pub to_lower : String → String
to_lower String.[] = String.[]
to_lower (String.◌∷◌ c s) =
    String.◌∷◌ (translate "ABCDEFGHIJKLMNOPQRSTUVWXYZ" "abcdefghijklmnopqrstuvwxyz" c) (to_lower s)

-- `strings.HasPrefix(s, prefix)`, with the prefix first.
unfoldable pub starts : String → String → Bool
starts String.[] s = true
starts (String.◌∷◌ c p) String.[] = false
starts (String.◌∷◌ c p) (String.◌∷◌ d s) = (code c == code d) && starts p s
