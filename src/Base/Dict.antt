-- ===== src/Base/Dict.antt =====
-- A Go map with string keys, as an association list: m[k], m[k] = v, delete(m, k), and a loop over
-- all entries that changes each value.
use Prim.Native.String.{String}
use text.Mathlib.Text.{◌==◌}
use text.Mathlib.TextEquality.{eq_iff}
use text.Mathlib.TextPositions.{eq_refl}
use mathlib.Core.Path.{◌≡◌, refl}
use mathlib.Core.Option
use mathlib.Core.Option.{Option, none, some}
use mathlib.Core.List.{List, [], ◌∷◌}
use native.Mathlib.Omega.{arith}
use loqa_core.Base.Tests.{if◌then◌else◌}

abbrev pub Map {ℓ} : Type ℓ → Type ℓ
Map V = List (String × V)

module _ {ℓ} {V : Type ℓ} where
  -- delete(m, key)
  unfoldable pub delete : String → Map V → Map V
  delete key [] = []
  delete key ((name, value) ∷ entries) =
      if name == key then delete key entries else (name, value) ∷ delete key entries

  -- The value of m[key], and whether it is there.
  unfoldable pub lookup : String → Map V → Option V
  lookup key [] = none
  lookup key ((name, value) ∷ entries) = if name == key then some value else lookup key entries

  -- m[key] = new
  unfoldable pub insert : String → V → Map V → Map V
  insert key new [] = (key, new) ∷ []
  insert key new ((name, value) ∷ entries) =
      if name == key then (name, new) ∷ entries else (name, value) ∷ insert key new entries

  -- for _, v := range m { *v = f(*v) }
  unfoldable pub update_all : (V → V) → Map V → Map V
  update_all f [] = []
  update_all f ((name, value) ∷ entries) = (name, f value) ∷ update_all f entries

  pub lookup-delete :
      (key asked : String) (m : Map V)
      → lookup asked (delete key m) ≡ (if key == asked then none else lookup asked m)
  unfolding delete lookup
  lookup-delete key asked [] = ground arith
  lookup-delete key asked ((name, value) ∷ entries) =
      ground (
        arith,
        eq_iff name key,
        eq_iff name asked,
        eq_iff key asked,
        lookup-delete key asked entries,
      )

  pub lookup-insert :
      (key asked : String) (new : V) (m : Map V)
      → lookup asked (insert key new m) ≡ (if key == asked then some new else lookup asked m)
  unfolding insert lookup
  lookup-insert key asked new [] = refl
  lookup-insert key asked new ((name, value) ∷ entries) = ground (
    arith,
    eq_iff name key,
    eq_iff name asked,
    eq_iff key asked,
    lookup-insert key asked new entries,
  )

  pub lookup-update_all :
      (asked : String) (f : V → V) (m : Map V)
      → lookup asked (update_all f m) ≡ Option.map f (lookup asked m)
  unfolding update_all lookup
  lookup-update_all asked f [] = refl
  lookup-update_all asked f ((name, value) ∷ entries) =
      ground (arith, lookup-update_all asked f entries)

module _ {ℓ} {V : Type ℓ} where
  pub lookup-delete_self : (key : String) (m : Map V) → lookup key (delete key m) ≡ none
  lookup-delete_self key m = simp (lookup-delete, eq_refl)

  pub lookup-insert_self :
      (key : String) (new : V) (m : Map V) → lookup key (insert key new m) ≡ some new
  lookup-insert_self key new m = simp (lookup-insert, eq_refl)

pub ruleset map_laws =
    (lookup-insert_self, lookup-delete_self, lookup-insert, lookup-delete, lookup-update_all)
