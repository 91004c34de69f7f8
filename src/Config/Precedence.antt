-- ===== src/Config/Precedence.antt =====
-- internal/config/config.go, Load: the environment over the file over the defaults.
use loqa_core.Base.{
  ◌≢◌, ◌⊎◌, Bool-cases, inl, inr, ◌==◌, eq_iff, All, ◌≡◌, ◌↔◌, refl, sym, ap, subst, ◌∙◌, arith,
  Option, none, some, String, Float64,
}
use loqa_core.Config.Types.{Config}
use loqa_core.Config.Defaults.{default_config}
use loqa_core.Config.Settings.{settings, HasName, settings-HasName}
use loqa_core.Config.Overrides.{IsOverridden, settings-IsOverridden, overrides_keep}
use loqa_core.Config.Accepted.{IsAccepted, validate_iff}
use loqa_core.Config.Loading.{
  Env, replace, override_string, override_int, override_bool, override_string_slice, override_float,
  apply_env_overrides, File, content, not_found, unreadable, from_file, Decoder, base_config,
  finish, load, Loaded,
}

replace_idem {ℓ} :
    {A : Type ℓ} (o : Option A) (target : A) → replace o (replace o target) ≡ replace o target
replace_idem none target = refl
replace_idem (some value) target = refl

-- The environment's values do not depend on what they replace twice: a second pass changes nothing.
pub apply_env_overrides_idem :
    (parse_float : String → Option Float64) (env : Env) (cfg : Config)
    → apply_env_overrides parse_float env (apply_env_overrides parse_float env cfg)
      ≡ apply_env_overrides parse_float env cfg
unfolding apply_env_overrides override_string override_int override_bool override_string_slice
    override_float
apply_env_overrides_idem parse_float env cfg = simp replace_idem

no_overrides :
    (parse_float : String → Option Float64) (cfg : Config)
    → apply_env_overrides parse_float (λ key. none) cfg ≡ cfg
unfolding apply_env_overrides override_string override_int override_bool override_string_slice
    override_float
no_overrides parse_float cfg = refl

-- What Load starts from: the defaults, where no path is given, and else what the file decodes to over them.
abbrev pub IsRead : (String → File) → Decoder → String → Config → Type 0
IsRead disk unmarshal path base =
    ((path ≡ "") × (base ≡ default_config))
    ⊎ ((path ≢ "")
        × (text : String) × (disk path ≡ content text)
        × (unmarshal text default_config ≡ (base, none)))

from_file-read :
    (unmarshal : Decoder) (file : File) (base : Config)
    → from_file unmarshal file ≡ (base, none)
    → (text : String) × (file ≡ content text) × (unmarshal text default_config ≡ (base, none))
from_file-read unmarshal (content text) base e = (text, refl, e)
from_file-read unmarshal not_found base e = absurd (ground (arith, ap (λ p. p.1) e))
from_file-read unmarshal unreadable base e = absurd (ground (arith, ap (λ p. p.1) e))

base_config_iff :
    (disk : String → File) (unmarshal : Decoder) (path : String) (base : Config)
    → (base_config disk unmarshal path ≡ (base, none)) ↔ IsRead disk unmarshal path base
base_config_iff disk unmarshal path base = elim (Bool-cases (path == "")) [
  | inl is ↦
      let bare = (eq_iff path "").0 is in
      rw is (
        λ e. inl (bare, sym (ap (λ p. p.0) e)),
        λ h. elim h [
          | inl defaults ↦ ap (λ c. (c, none)) (sym defaults.1)
          | inr other ↦ absurd (other.0 bare)
        ],
      )
  | inr differs ↦ rw differs (
    λ e.
        let (text, there, decoded) = from_file-read unmarshal (disk path) base e in
        inr (λ bare. ground (arith, differs, bare, eq_iff path ""), text, there, decoded),
    λ h. elim h [
      | inl defaults ↦ absurd (ground (arith, differs, defaults.0, eq_iff path ""))
      | inr (given, text, there, decoded) ↦ ap (from_file unmarshal) there ∙ decoded
    ],
  )
]

finish_lem :
    (overrides : Config → Config) (base : Loaded)
    → ((finish overrides base).1 ≡ none)
      ↔ ((found : Config) × (base ≡ (found, none)) × IsAccepted (finish overrides base).0)
finish_lem overrides (found, some message) =
    (λ e. absurd (ground (arith, e)), λ h. absurd (ground (arith, ap (λ p. p.1) h.1)))
finish_lem overrides (found, none) = (
  λ e. (found, refl, (validate_iff (overrides found)).0 e),
  λ h. (validate_iff (overrides found)).1 h.2,
)

-- Load gives no error exactly if the file, where a path names one, is read and decoded, and the
-- configuration that it gives is acceptable. Where the file is read, each setting of the result that
-- has a variable, which is called LOQA_ and the setting's path (with runtime before the
-- environment's), is what that variable is read as, or stays what it is in the file, or by default,
-- where the variable is not set or is not read; the node's capabilities and the settings of the skills
-- stay.
pub load_lem :
    (disk : String → File) (unmarshal : Decoder) (parse_float : String → Option Float64) (env : Env)
    (path : String)
    → let (cfg, error) = load disk unmarshal parse_float env path in
      ((error ≡ none) ↔ ((base : Config) × IsRead disk unmarshal path base × IsAccepted cfg))
      × ((base : Config)
          → IsRead disk unmarshal path base
          → All (All (IsOverridden parse_float env base cfg)) settings
            × (cfg.node.capabilities ≡ base.node.capabilities)
            × (cfg.skills ≡ base.skills))
      × All (All HasName) settings
unfolding load
load_lem disk unmarshal parse_float env path =
    let overrides = apply_env_overrides parse_float env in
    let found = finish_lem overrides (base_config disk unmarshal path) in
    let read = base_config_iff disk unmarshal path in
    (
      (
        λ e. let (base, there, accepted) = found.0 e in (base, (read base).0 there, accepted),
        λ (base, there, accepted). found.1 (base, (read base).1 there, accepted),
      ),
      λ base there.
          subst
            (λ (p : Loaded).
              All (All (IsOverridden parse_float env base (finish overrides p).0)) settings
              × ((finish overrides p).0.node.capabilities ≡ base.node.capabilities)
              × ((finish overrides p).0.skills ≡ base.skills))
            (sym ((read base).1 there))
            (
              settings-IsOverridden parse_float env base,
              (overrides_keep parse_float env base).0,
              (overrides_keep parse_float env base).1,
            ),
      settings-HasName,
    )
