-- ===== src/Auth/World/Keeping.antt =====
-- What the primitive actions on the `World` keep.
use go_project_starter.Base.{Bool-cases, inl, inr}
use go_project_starter.Base.Exec.{Keeps}
use go_project_starter.Auth.World.{Env, World, Call, query, exec}

module _ (env : Env) {P : World → Type 0} where
  pub Keeps-query : {A : Type 0} (c : Call) (f : World → A) → Keeps P (query env c f)
  unfolding query
  Keeps-query c f = record { at = λ w h. h }

  pub Keeps-exec :
      {A : Type 0} (c : Call) (f : World → A × World)
      → ((w : World) → P w → P (f w).1)
      → Keeps P (exec env c f)
  unfolding exec
  Keeps-exec c f k = record {
    at = λ w h. elim (Bool-cases (env.fails c)) [ inl e ↦ rw e h | inr e ↦ rw e (k w h) ];
  }
