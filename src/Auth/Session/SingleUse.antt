-- ===== src/Auth/Session/SingleUse.antt =====
-- `Refresh` of refresh.go over the later history of the table.
use go_project_starter.Base.{◌≡◌, true, some, Option, none, arith, ◌≢◌, subst}
use go_project_starter.Base.Texts.{Text, same_refl, trim_space}
use go_project_starter.Base.Exec.{Result, ok}
use go_project_starter.Auth.Domain.RefreshToken.{RefreshToken, is_revoked}
use go_project_starter.Auth.Domain.VerificationCode.{Hashes}
use go_project_starter.Auth.World.{Env, World}
use go_project_starter.Auth.Repository.Tokens.{
  token_by_hash, revoke_where, has_id, revoke_by_user_id,
}
use go_project_starter.Auth.Repository.Tokens.Laws.{
  Grows, Grows-refl, Grows-trans, token_by_hash-Grows, token_by_hash-revoke_where, revoke_row,
  revoke_where_revokes, is_revoked-Follows,
}
use go_project_starter.Auth.Command.Issuer.{TokenResult, issue}
use go_project_starter.Auth.Command.Refresh.{refresh}
use go_project_starter.Auth.Command.SignOut.{logout, session_revoke}
use go_project_starter.Auth.Session.Growth.{
  issue_in_family-After, issue-After, refresh-After, logout-After, session_revoke-After,
  revoke_by_user_id-After,
}
use go_project_starter.Auth.Session.Rotation.{refresh_steps}

-- One step of the program, under any configuration and with any calls failing: a use case that
-- writes to refresh_tokens, or anything that leaves that table alone, the passing of time included.
pub data Step : World → World → Type 0 where
  log_in : (env : Env) (user_id : Text) (w : World) → Step w (issue env user_id w).1
  rotate : (env : Env) (raw : Text) (w : World) → Step w (refresh env raw w).1
  log_out : (env : Env) (user_id raw : Text) (w : World) → Step w (logout env user_id raw w).1
  end_one :
      (env : Env) (user_id family_id : Text) (w : World)
      → Step w (session_revoke env user_id family_id w).1
  end_all : (env : Env) (user_id : Text) (w : World) → Step w (revoke_by_user_id env user_id w).1
  elsewhere : (w w' : World) → w'.tokens ≡ w.tokens → Step w w'

pub data Reach (w : World) : World → Type 0 where
  here : Reach w w
  next : {v u : World} → Reach w v → Step v u → Reach w u

Step-Grows : {v u : World} → Step v u → Grows v.tokens u.tokens
Step-Grows (log_in env user_id w) = (issue-After env w.tokens user_id).at w (Grows-refl w.tokens)
Step-Grows (rotate env raw w) = (refresh-After env w.tokens raw).at w (Grows-refl w.tokens)
Step-Grows (log_out env user_id raw w) =
    (logout-After env w.tokens user_id raw).at w (Grows-refl w.tokens)
Step-Grows (end_one env user_id family_id w) =
    (session_revoke-After env w.tokens user_id family_id).at w (Grows-refl w.tokens)
Step-Grows (end_all env user_id w) =
    (revoke_by_user_id-After env w.tokens user_id).at w (Grows-refl w.tokens)
Step-Grows (elsewhere w w' e) = rw e (Grows-refl w.tokens)

-- Over any history every stored token keeps its place and its identity, and a token that has been
-- revoked stays revoked, at the same time.
pub Reach-Grows : {w v : World} → Reach w v → Grows w.tokens v.tokens
Reach-Grows {w} here = Grows-refl w.tokens
Reach-Grows {w} (next {v} {u} r s) =
    Grows-trans w.tokens v.tokens u.tokens (Reach-Grows r) (Step-Grows s)

-- The token that was presented is stored as revoked when `refresh` has returned.
rotated :
    (env : Env) (raw : Text) (w : World) {res : TokenResult} {w' : World}
    → refresh env raw w ≡ (ok res, w')
    → (u : RefreshToken) × (token_by_hash (env.hashes.hash_secret (trim_space raw)) w'.tokens
        ≡ some u)
      × (is_revoked u ≡ true)
rotated env raw w {w' = w'} h =
    let (t, user, found, _, _, _, _, issued) = refresh_steps env raw w h in
    let hash = env.hashes.hash_secret (trim_space raw) in
    let retired = revoke_where (has_id t.id) w.now w.tokens in
    let w1 = record w { tokens = retired } in
    let grown =
      (issue_in_family-After env retired user.id t.family_id).at w1 (Grows-refl retired) in
    let row = revoke_row (has_id t.id) w.now t in
    let after = token_by_hash-revoke_where hash (has_id t.id) w.now w.tokens t found in
    let (u, found', follows) =
      token_by_hash-Grows hash retired w'.tokens row
        (subst (λ (p : Result TokenResult × World). Grows retired p.1.tokens) issued grown) after in
    (
      u,
      found',
      is_revoked-Follows row u follows
          (revoke_where_revokes (has_id t.id) w.now t (same_refl t.id)),
    )

clash :
    (o : Option RefreshToken) (x t : RefreshToken)
    → o ≡ some x
    → o ≡ some t
    → is_revoked x ≡ true
    → t.revoked_at ≡ none
    → ⊥
unfolding is_revoked
clash o x t e f revoked unrevoked = ground arith

-- After a successful exchange of a refresh token, over any later history and with any calls
-- failing, no exchange of that token succeeds again, the hash function being the same.
pub refresh_single_use :
    (env later : Env) (raw : Text) (w w' v v' : World) (res again : TokenResult)
    → refresh env raw w ≡ (ok res, w')
    → Reach w' v
    → later.hashes ≡ env.hashes
    → refresh later raw v ≢ (ok again, v')
refresh_single_use env later raw w w' v v' res again h history same_hashes h' =
    let (u, found, revoked) = rotated env raw w h in
    let hash = env.hashes.hash_secret (trim_space raw) in
    let (x, found_now, follows) =
      token_by_hash-Grows hash w'.tokens v.tokens u (Reach-Grows history) found in
    let still = is_revoked-Follows u x follows revoked in
    let (t, _, presented, unrevoked, _, _, _, _) = refresh_steps later raw v h' in
    clash (token_by_hash hash v.tokens) x t found_now
      (subst (λ (hs : Hashes). token_by_hash (hs.hash_secret (trim_space raw)) v.tokens ≡ some t)
        same_hashes presented)
      still unrevoked
