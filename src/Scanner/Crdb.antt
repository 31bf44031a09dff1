-- ===== src/Scanner/Crdb.antt =====
-- internal/scanner/crdbv2.go: the lines of CockroachDB's logs, and `Match` of scanner.go. A line is
-- valid UTF-8, and all that is looked for in it is ASCII, so its characters stand for its bytes.
pub mod Line
mod Examples
use Prim.Native.Char.{Char, code}
use visus.Prelude.{
  ℕ, zero, suc, String, Bool, true, false, not, ◌&&◌, ◌||◌, Option, none, some, ◌==◌, nat_eq,
  string_eq, if◌then◌else◌, leb, List, [], ◌∷◌,
}

-- A compiled regular expression: its text, and what it matches.
pub record Regexp : Type 0 where
  pub source : String
  pub matches : String → Bool

pub record Metric : Type 0 where
  pub exclude : Regexp
  pub regex : Regexp

unfoldable pub match : Metric → String → Bool
match m line =
    if not (m.exclude.source == "") && m.exclude.matches line then false else m.regex.matches line

abbrev pub is_level : Char → Bool
is_level c = code c == b'F' || code c == b'E' || code c == b'I' || code c == b'W'

abbrev pub is_digit : Char → Bool
is_digit c = leb b'0' (code c) && leb (code c) b'9'

-- So many digits and a space.
unfoldable pub digits : ℕ → String → Bool
digits n String.[] = false
digits zero (String.◌∷◌ c s) = code c == b' '
digits (suc n) (String.◌∷◌ c s) = is_digit c && digits n s

-- `crdbPrefix`.
unfoldable pub has_prefix : String → Bool
unfolding digits
has_prefix String.[] = false
has_prefix (String.◌∷◌ c s) = is_level c && digits 6 s

-- `strings.Cut` at one character: what is before it and after it.
unfoldable pub cut : ℕ → String → Option (String × String)
cut sep String.[] = none
cut sep (String.◌∷◌ c s) =
    let rest = cut sep s in
    if code c == sep
    then some (String.[], s)
    else elim rest [ none ↦ none | some (before, after) ↦ some (String.◌∷◌ c before, after) ]

-- The last of `strings.SplitN(line, " ", n + 1)`, if there are so many.
unfoldable pub field : ℕ → String → Option String
unfolding cut
field zero s = some s
field (suc n) s = elim (cut b' ' s) [ none ↦ none | some (_, after) ↦ field n after ]

unfoldable pub before_colon : String → String
unfolding cut
before_colon s = elim (cut b':' s) [ none ↦ s | some (before, _) ↦ before ]

-- The source file that the fourth field of a line names.
unfoldable pub module_name : Option String → String
unfolding before_colon
module_name none = ""
module_name (some s) = elim (cut b'@' s) [
  | none ↦ before_colon s
  | some (_, after) ↦ before_colon after
]

-- `string(line[0])`.
abbrev pub first : String → String
first String.[] = ""
first (String.◌∷◌ c s) = String.◌∷◌ c String.[]

-- The labels of the series that `Parse` counts a line in: its level and its source.
unfoldable pub parse : Metric → String → Option (String × String)
unfolding has_prefix match field module_name
parse m line =
    if not (has_prefix line)
    then none
    else if match m line
    then some (first line, module_name (field 3 line))
    else none
