-- ===== src/Skills/Loading.antt =====
-- internal/skills/service/service.go, loadSkills and addSkill: which skills are there afterwards.
use loqa_core.Base.{
  ◌≡◌, refl, sym, ap, ◌∙◌, subst, String, ◌==◌, eq_iff, Bool, true, false, ◌&&◌, Option, none, some,
  List, [], ◌∷◌, Map, lookup, lookup-insert, arith, if◌then◌else◌, Bool-cases, Option-cases, inl,
  inr,
}
use loqa_core.Skills.Package.{Manifest, validate}
use loqa_core.Skills.{Binding, binding_of, add_skill, load_skills}

-- The first manifest of the name that passes the checks.
abbrev pub is_none : Option String → Bool
is_none none = true
is_none (some message) = false

abbrev pub is_candidate : String → Manifest → Bool
is_candidate name m = (m.metadata.name == name) && is_none (validate m)

abbrev pub or_first : String → Option Manifest → Option Binding → Option Binding
or_first name none later = later
or_first name (some m) later = if is_candidate name m then some (binding_of m) else later

abbrev pub first_valid : String → List (Option Manifest) → Option Binding
first_valid name [] = none
first_valid name (file ∷ files) = or_first name file (first_valid name files)

abbrev pub or_later : Option Binding → Option Binding → Option Binding
or_later (some b) later = some b
or_later none later = later

or_later-none : (o : Option Binding) → or_later o none ≡ o
or_later-none none = refl
or_later-none (some b) = refl

or_later_assoc : (a b c : Option Binding) → or_later (or_later a b) c ≡ or_later a (or_later b c)
or_later_assoc none b c = refl
or_later_assoc (some x) b c = refl

or_first-or_later :
    (name : String) (file : Option Manifest) (later : Option Binding)
    → or_later (or_first name file none) later ≡ or_first name file later
or_first-or_later name none later = refl
or_first-or_later name (some m) later = elim (Bool-cases (is_candidate name m)) [
  | inl e ↦ rw e refl
  | inr e ↦ rw e refl
]

validate-named : (m : Manifest) → validate m ≡ none → (m.metadata.name == "") ≡ false
unfolding validate
validate-named m h = elim (Bool-cases (m.metadata.name == "")) [
  | inl e ↦ absurd (ground (arith, e, h))
  | inr e ↦ e
]

lookup-add_skill :
    (name : String) (file : Option Manifest) (skills : Map Binding)
    → lookup name (add_skill file skills).0
      ≡ or_later (lookup name skills) (or_first name file none)
unfolding add_skill
lookup-add_skill name none skills = sym (or_later-none (lookup name skills))
lookup-add_skill name (some m) skills = elim (Option-cases (validate m)) [
  | inr (message, bad) ↦
      rw (add_skill, bad)
        (elim (Bool-cases (m.metadata.name == name)) [
          | inl e ↦ rw e (sym (or_later-none (lookup name skills)))
          | inr e ↦ rw e (sym (or_later-none (lookup name skills)))
        ])
  | inl ok ↦
      rw (add_skill, ok, validate-named m ok)
        (elim (Bool-cases (m.metadata.name == name)) [
          | inl e ↦
              let same : m.metadata.name ≡ name = ground (arith, e, eq_iff m.metadata.name name) in
              elim (Option-cases (lookup m.metadata.name skills)) [
                | inr (other, there) ↦
                    rw (there, subst (λ k. lookup k skills ≡ some other) same there) refl
                | inl free ↦
                    rw (free, subst (λ k. lookup k skills ≡ none) same free, e)
                      (lookup-insert m.metadata.name name (binding_of m) skills ∙ rw e refl)
              ]
          | inr e ↦ elim (Option-cases (lookup m.metadata.name skills)) [
            | inr (other, there) ↦ rw (there, e) (sym (or_later-none (lookup name skills)))
            | inl free ↦
                rw (free, e)
                  (lookup-insert m.metadata.name name (binding_of m) skills
                    ∙ rw e (sym (or_later-none (lookup name skills))))
          ]
        ])
]

load_skills-from :
    (files : List (Option Manifest)) (name : String) (skills : Map Binding)
    → lookup name (load_skills files skills)
      ≡ or_later (lookup name skills) (first_valid name files)
unfolding load_skills
load_skills-from [] name skills = sym (or_later-none (lookup name skills))
load_skills-from (file ∷ files) name skills =
    load_skills-from files name (add_skill file skills).0
    ∙ ap (λ o. or_later o (first_valid name files)) (lookup-add_skill name file skills)
    ∙ or_later_assoc (lookup name skills) (or_first name file none) (first_valid name files)
    ∙ ap (or_later (lookup name skills)) (or_first-or_later name file (first_valid name files))

-- The skill that is loaded under a name is the one of the first manifest, in the order of the walk,
-- that has the name and passes the checks; later ones of the name, and files that do not decode or
-- do not pass, change nothing.
pub lookup-load_skills :
    (files : List (Option Manifest)) (name : String)
    → lookup name (load_skills files []) ≡ first_valid name files
unfolding lookup
lookup-load_skills files name = load_skills-from files name []
