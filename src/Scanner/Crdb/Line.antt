-- ===== src/Scanner/Crdb/Line.antt =====
-- crdbv2.go: the parser against the format of the lines.
use Prim.Native.Char.{Char, code}
use visus.Prelude.{
  ℕ, zero, suc, String, ◌≡◌, refl, ap, ◌∙◌, Bool, true, false, not, ◌&&◌, none, some, ◌==◌, nat_eq,
  if◌then◌else◌, arith,
}
use visus.Scanner.Crdb.{
  Metric, match, is_level, is_digit, digits, has_prefix, cut, field, before_colon, module_name,
  parse,
}

-- Two texts with a character between them.
abbrev pub sep_by : String → Char → String → String
sep_by String.[] c t = String.◌∷◌ c t
sep_by (String.◌∷◌ d s) c t = String.◌∷◌ d (sep_by s c t)

-- A text without a character.
abbrev pub free : Char → String → Bool
free c String.[] = true
free c (String.◌∷◌ d s) = not (code d == code c) && free c s

-- So many digits.
abbrev pub only_digits : ℕ → String → Bool
only_digits zero String.[] = true
only_digits zero (String.◌∷◌ c s) = false
only_digits (suc n) String.[] = false
only_digits (suc n) (String.◌∷◌ c s) = is_digit c && only_digits n s

abbrev pub space : Char
space = " "

abbrev pub at_sign : Char
at_sign = "@"

abbrev pub colon : Char
colon = ":"

-- The lines of CockroachDB's log format: level and date, time, goroutine, channel, source file.
abbrev pub log_line : Char → String → String → String → String → String → String → String
log_line level date time goroutine channel file rest =
    sep_by (String.◌∷◌ level date) space
      (sep_by time space (sep_by goroutine space (sep_by channel at_sign (sep_by file colon rest))))

cut-sep_by : (c : Char) (s t : String) → free c s ≡ true → cut (code c) (sep_by s c t) ≡ some (s, t)
unfolding cut
cut-sep_by c String.[] t h = ground arith
cut-sep_by c (String.◌∷◌ d s) t h = ground (arith, cut-sep_by c s t)

digits-sep_by : (n : ℕ) (s t : String) → only_digits n s ≡ true → digits n (sep_by s space t) ≡ true
unfolding digits
digits-sep_by zero String.[] t h = refl
digits-sep_by zero (String.◌∷◌ c s) t h = ground arith
digits-sep_by (suc n) String.[] t h = ground arith
digits-sep_by (suc n) (String.◌∷◌ c s) t h = ground (arith, digits-sep_by n s t)

digits-free : (n : ℕ) (s : String) → only_digits n s ≡ true → free space s ≡ true
digits-free zero String.[] h = refl
digits-free zero (String.◌∷◌ c s) h = ground arith
digits-free (suc n) String.[] h = ground arith
digits-free (suc n) (String.◌∷◌ c s) h = ground (arith, digits-free n s)

level-free : (c : Char) → is_level c ≡ true → (code c == code space) ≡ false
level-free c h = ground arith

field-sep_by :
    (n : ℕ) (s t : String) → free space s ≡ true → field (suc n) (sep_by s space t) ≡ field n t
unfolding field
field-sep_by n s t h = rw (cut-sep_by space s t h, field) refl

module_name-sep_by :
    (channel file rest : String)
    → free at_sign channel ≡ true
    → free colon file ≡ true
    → module_name (some (sep_by channel at_sign (sep_by file colon rest))) ≡ file
unfolding module_name before_colon
module_name-sep_by channel file rest c f =
    rw
      (
        cut-sep_by at_sign channel (sep_by file colon rest) c,
        cut-sep_by colon file rest f,
        module_name,
        before_colon,
      )
      refl

has_prefix-sep_by :
    (level : Char) (date t : String)
    → is_level level ≡ true
    → only_digits 6 date ≡ true
    → has_prefix (sep_by (String.◌∷◌ level date) space t) ≡ true
unfolding has_prefix
has_prefix-sep_by level date t l d = rw (l, digits-sep_by 6 date t d) refl

-- A line of the log format is counted under its level and its source file, if the metric matches it,
-- and not at all otherwise: for one of the four levels, six digits of date, a time and a goroutine
-- without a space, a channel without an at sign, and a file without a colon.
pub parse-log_line :
    (m : Metric) (level : Char) (date time goroutine channel file rest : String)
    → is_level level ≡ true
    → only_digits 6 date ≡ true
    → free space time ≡ true
    → free space goroutine ≡ true
    → free at_sign channel ≡ true
    → free colon file ≡ true
    → parse m (log_line level date time goroutine channel file rest) ≡ (
        if match m (log_line level date time goroutine channel file rest)
        then some (String.◌∷◌ level String.[], file)
        else none)
unfolding parse field
parse-log_line m level date time goroutine channel file rest l d t g c f =
    let after_channel = sep_by channel at_sign (sep_by file colon rest) in
    let after_goroutine = sep_by goroutine space after_channel in
    let after_time = sep_by time space after_goroutine in
    let fresh : free space (String.◌∷◌ level date) ≡ true =
      ground (arith, level-free level, digits-free 6 date) in
    let fields : field 3 (log_line level date time goroutine channel file rest)
        ≡ some after_channel =
      field-sep_by 2 (String.◌∷◌ level date) after_time fresh
      ∙ field-sep_by 1 time after_goroutine t
      ∙ field-sep_by 0 goroutine after_channel g in
    rw (has_prefix-sep_by level date after_time l d) (
      ap
        (λ name.
          if match m (log_line level date time goroutine channel file rest)
          then some (String.◌∷◌ level String.[], name)
          else none)
        (ap module_name fields ∙ module_name-sep_by channel file rest c f))
