-- ===== src/Common/Maps.antt =====
-- A JavaScript `Map` with string keys, as an association list: `get`, `set`, `delete`, `has`.
use Prim.Native.String.{String}
use mathlib.Core.Path.{◌≡◌, refl}
use mathlib.Core.Logic.{◌≢◌, inl, inr}
use mathlib.Core.Bool.{Bool}
use mathlib.Core.Option.{Option, none, some}
use mathlib.Core.List.{List, [], ◌∷◌}
use native.Mathlib.Omega.{arith}
use text.Mathlib.TextEquality.{eq_iff}
use text.Mathlib.TextPositions.{eq_refl}
use ai_support_agent_cli.Common.Tests.{
  Bool-cases, str_eq_sym, str_eq, str_eq-ne, if◌then◌else◌, is_some,
}

module _ {ℓ} {V : Type ℓ} where
  unfoldable pub lookup : String → List (String × V) → Option V
  lookup key [] = none
  lookup key ((other, value) ∷ entries) =
      if str_eq other key then some value else lookup key entries

  -- `map.set(k, v)`: a key that is there keeps its place.
  unfoldable pub insert : String → V → List (String × V) → List (String × V)
  insert key value [] = (key, value) ∷ []
  insert key value ((other, old) ∷ entries) =
      if str_eq other key then (key, value) ∷ entries else (other, old) ∷ insert key value entries

  -- `map.delete(k)`
  unfoldable pub remove : String → List (String × V) → List (String × V)
  remove key [] = []
  remove key ((other, old) ∷ entries) =
      if str_eq other key then remove key entries else (other, old) ∷ remove key entries

  -- `map.has(k)`
  abbrev pub has : String → List (String × V) → Bool
  has key entries = is_some (lookup key entries)

  pub lookup-insert :
      (key other : String) (value : V) (entries : List (String × V))
      → lookup other (insert key value entries)
        ≡ (if str_eq key other then some value else lookup other entries)
  unfolding lookup insert
  lookup-insert key other value [] = refl
  lookup-insert key other value ((first, old) ∷ entries) = ground (
    arith,
    eq_iff key other,
    eq_iff first key,
    eq_iff first other,
    lookup-insert key other value entries,
  )

  pub lookup-remove :
      (key other : String) (entries : List (String × V))
      → lookup other (remove key entries)
        ≡ (if str_eq key other then none else lookup other entries)
  unfolding lookup remove
  lookup-remove key other [] = ground arith
  lookup-remove key other ((first, old) ∷ entries) = ground (
    arith,
    eq_iff key other,
    eq_iff first key,
    eq_iff first other,
    lookup-remove key other entries,
  )

  pub lookup-insert_self :
      (key : String) (value : V) (entries : List (String × V))
      → lookup key (insert key value entries) ≡ some value
  lookup-insert_self key value entries = simp (lookup-insert, eq_refl)

  pub lookup-remove_self :
      (key : String) (entries : List (String × V)) → lookup key (remove key entries) ≡ none
  lookup-remove_self key entries = simp (lookup-remove, eq_refl)

  pub lookup-insert_ne :
      (key other : String) (value : V) (entries : List (String × V))
      → key ≢ other
      → lookup other (insert key value entries) ≡ lookup other entries
  lookup-insert_ne key other value entries h =
      rw (lookup-insert key other value entries, str_eq-ne key other h)

  pub lookup-remove_ne :
      (key other : String) (entries : List (String × V))
      → key ≢ other
      → lookup other (remove key entries) ≡ lookup other entries
  lookup-remove_ne key other entries h = rw (lookup-remove key other entries, str_eq-ne key other h)

  -- No key stands twice.
  abbrev pub Distinct : List (String × V) → Type ℓ
  Distinct [] = Unit
  Distinct ((key, value) ∷ entries) = (lookup key entries ≡ none) × Distinct entries

  pub insert-Distinct :
      (key : String) (value : V) (entries : List (String × V))
      → Distinct entries
      → Distinct (insert key value entries)
  unfolding insert
  insert-Distinct key value [] d = (unfold lookup in refl, tt)
  insert-Distinct key value ((other, old) ∷ entries) (free, d) =
      elim (Bool-cases (str_eq other key)) [
        | inl same ↦ rw same (rw ((eq_iff other key).0 same) at free, d)
        | inr differ ↦ rw differ (
          rw (lookup-insert key other value entries, str_eq_sym key other, differ) free,
          insert-Distinct key value entries d,
        )
      ]

  pub remove-Distinct :
      (key : String) (entries : List (String × V))
      → Distinct entries
      → Distinct (remove key entries)
  unfolding remove
  remove-Distinct key [] d = tt
  remove-Distinct key ((other, old) ∷ entries) (free, d) = elim (Bool-cases (str_eq other key)) [
    | inl same ↦ rw same (remove-Distinct key entries d)
    | inr differ ↦ rw differ (
      rw (lookup-remove key other entries, str_eq_sym key other, differ) free,
      remove-Distinct key entries d,
    )
  ]
