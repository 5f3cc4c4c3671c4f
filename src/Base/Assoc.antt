-- ===== src/Base/Assoc.antt =====
-- Maps with text keys, as association lists.
use mathlib.Core.Path.{◌≡◌}
use mathlib.Core.Option.{Option, none, some}
use mathlib.Core.List.{List, [], ◌∷◌}
use native.Mathlib.Omega.{arith}
use go_project_starter.Base.Tests.{if◌then◌else◌}
use go_project_starter.Base.Texts.{Text, same, same_iff, same_refl}

module _ {ℓ} {V : Type ℓ} where
  unfoldable pub lookup : Text → List (Text × V) → Option V
  lookup k [] = none
  lookup k ((j, v) ∷ m) = let rest = lookup k m in if same j k then some v else rest

  unfoldable pub without : Text → List (Text × V) → List (Text × V)
  without k [] = []
  without k ((j, v) ∷ m) = let rest = without k m in if same j k then rest else (j, v) ∷ rest

  unfoldable pub put : Text → V → List (Text × V) → List (Text × V)
  put k v m = (k, v) ∷ without k m

  pub lookup-without :
      (k j : Text) (m : List (Text × V))
      → lookup j (without k m) ≡ (if same k j then none else lookup j m)
  unfolding lookup without
  lookup-without k j [] = ground arith
  lookup-without k j ((i, v) ∷ m) =
      ground (arith, lookup-without k j m, same_iff i k, same_iff i j, same_iff k j)

  pub lookup-put :
      (k j : Text) (v : V) (m : List (Text × V))
      → lookup j (put k v m) ≡ (if same k j then some v else lookup j m)
  unfolding put lookup
  lookup-put k j v m = ground (arith, lookup-without k j m)

pub ruleset assoc_laws = (lookup-put, lookup-without, same_refl)
