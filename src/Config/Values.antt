-- ===== src/Config/Values.antt =====
-- The texts of environment variables, as strings.TrimSpace, strings.Split at commas, strconv.Atoi and
-- strconv.ParseBool read them. A text is valid UTF-8, and an int is 64 bits.
use Prim.Native.Char.{Char, code}
use Prim.Native.Nat.{◌+◌, ◌-◌, ◌*◌, ◌^◌, suc}
use loqa_core.Base.{
  ℕ, String, ◌==◌, Bool, true, false, ◌&&◌, ◌||◌, Option, none, some, List, [], ◌∷◌, ltb, leb, eqb,
  ℤ, pos, negsuc, if◌then◌else◌,
}

-- unicode.IsSpace.
abbrev pub is_space : ℕ → Bool
is_space c =
    (leb 9 c && leb c 13)
    || eqb c 32
    || eqb c 133
    || eqb c 160
    || eqb c 5760
    || (leb 8192 c && leb c 8202)
    || eqb c 8232
    || eqb c 8233
    || eqb c 8239
    || eqb c 8287
    || eqb c 12288

unfoldable pub trim_left : String → String
trim_left String.[] = ""
trim_left (String.◌∷◌ c s) = if is_space (code c) then trim_left s else String.◌∷◌ c s

-- A character before a text, which goes if it is a blank and the text has gone.
abbrev pub keep_char : Char → String → String
keep_char c String.[] = if is_space (code c) then "" else String.◌∷◌ c ""
keep_char c (String.◌∷◌ d s) = String.◌∷◌ c (String.◌∷◌ d s)

unfoldable pub trim_right : String → String
trim_right String.[] = ""
trim_right (String.◌∷◌ c s) = keep_char c (trim_right s)

abbrev pub trim_space : String → String
trim_space s = trim_right (trim_left s)

abbrev pub comma : ℕ
comma = b','

-- A character before the first part.
abbrev pub onto_first : Char → List String → List String
onto_first c [] = []
onto_first c (part ∷ parts) = String.◌∷◌ c part ∷ parts

unfoldable pub split_commas : String → List String
split_commas String.[] = "" ∷ []
split_commas (String.◌∷◌ c s) =
    let parts = split_commas s in if eqb (code c) comma then "" ∷ parts else onto_first c parts

abbrev pub is_digit : ℕ → Bool
is_digit c = leb b'0' c && leb c b'9'

-- The decimal digits behind a number.
unfoldable pub scan : String → ℕ → Option ℕ
scan String.[] n = some n
scan (String.◌∷◌ c s) n =
    let rest = scan s (n * 10 + (code c - b'0')) in if is_digit (code c) then rest else none

abbrev pub scan_digits : String → Option ℕ
scan_digits String.[] = none
scan_digits (String.◌∷◌ c s) = scan (String.◌∷◌ c s) 0

-- The number's sign and range.
abbrev pub positive : Option ℕ → Option ℤ
positive none = none
positive (some n) = if ltb n (2 ^ 63) then some (pos n) else none

abbrev pub negative : Option ℕ → Option ℤ
negative none = none
negative (some ℕ.zero) = some (pos 0)
negative (some (suc n)) = if ltb n (2 ^ 63) then some (negsuc n) else none

unfoldable pub atoi : String → Option ℤ
atoi String.[] = none
atoi (String.◌∷◌ c s) =
    if eqb (code c) b'-'
    then negative (scan_digits s)
    else if eqb (code c) b'+'
    then positive (scan_digits s)
    else positive (scan_digits (String.◌∷◌ c s))

unfoldable pub parse_bool : String → Option Bool
parse_bool s =
    if (s == "1") || (s == "t") || (s == "T") || (s == "TRUE") || (s == "true") || (s == "True")
    then some true
    else if (s == "0")
        || (s == "f")
        || (s == "F")
        || (s == "FALSE")
        || (s == "false")
        || (s == "False")
    then some false
    else none
