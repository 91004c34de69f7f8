-- ===== src/Config/Servers.antt =====
-- internal/config/config.go, overrideStringSlice: the list that a comma-separated variable gives.
use Prim.Native.Char.{Char, code}
use loqa_core.Base.{◌≡◌, ◌≢◌, refl, ap, ◌∙◌, arith, String, eq_iff, some, List, [], ◌∷◌, All}
use loqa_core.Config.Values.{trim_space, comma, split_commas}
use loqa_core.Config.Loading.{Env, trimmed, override_string_slice}

-- The parts with commas between them.
abbrev pub then_comma : String → String → String
then_comma String.[] rest = String.◌∷◌ (Prim.Native.Char.char b',' tt) rest
then_comma (String.◌∷◌ c s) rest = String.◌∷◌ c (then_comma s rest)

abbrev pub join_commas : List String → String
join_commas [] = ""
join_commas (part ∷ []) = part
join_commas (part ∷ other ∷ parts) = then_comma part (join_commas (other ∷ parts))

abbrev pub LacksComma : String → Type 0
LacksComma String.[] = Unit
LacksComma (String.◌∷◌ c s) = (code c ≢ comma) × LacksComma s

-- A part that a list keeps as it is.
abbrev pub IsPart : String → Type 0
IsPart s = LacksComma s × (s ≢ "") × (trim_space s ≡ s)

split_last : (s : String) → LacksComma s → split_commas s ≡ s ∷ []
unfolding split_commas
split_last String.[] h = refl
split_last (String.◌∷◌ c s) h = rw (split_last s h.1) (ground (arith, h.0))

split_first :
    (s rest : String) → LacksComma s → split_commas (then_comma s rest) ≡ s ∷ split_commas rest
unfolding split_commas
split_first String.[] rest h = refl
split_first (String.◌∷◌ c s) rest h = rw (split_first s rest h.1) (ground (arith, h.0))

split_commas-join_commas :
    (part : String) (parts : List String)
    → All IsPart (part ∷ parts)
    → split_commas (join_commas (part ∷ parts)) ≡ part ∷ parts
split_commas-join_commas part [] h = split_last part h.0.0
split_commas-join_commas part (other ∷ parts) h =
    split_first part _ h.0.0 ∙ ap (λ rest. part ∷ rest) (split_commas-join_commas other parts h.1)

trimmed-parts : (parts : List String) → All IsPart parts → trimmed parts ≡ parts
trimmed-parts [] h = refl
trimmed-parts (part ∷ parts) h =
    rw (h.0.2, trimmed-parts parts h.1) (ground (arith, h.0.1, eq_iff part ""))

-- A variable that is set to one part or more with commas between them gives the setting those parts,
-- in their order, where each part is not blank, has no comma and no white space at its ends.
pub override_string_slice-join_commas :
    (env : Env) (key part : String) (parts target : List String)
    → All IsPart (part ∷ parts)
    → env key ≡ some (join_commas (part ∷ parts))
    → override_string_slice env key target ≡ part ∷ parts
unfolding override_string_slice
override_string_slice-join_commas env key part parts target h e =
    rw (e, split_commas-join_commas part parts h, trimmed-parts (part ∷ parts) h) refl
