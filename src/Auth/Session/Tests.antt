-- ===== src/Auth/Session/Tests.antt =====
-- Runs of the use cases on a small table, and the theorems at them.
use mathlib.Core.Bool.{false≢true}
use go_project_starter.Base.{
  ℕ, true, false, Option, none, some, [], ◌∷◌, ◌≡◌, ◌≢◌, refl, arith, All, pos, ◌⊎◌,
}
use go_project_starter.Base.Texts.{codes, is_empty, same, same_iff, trim_space}
use go_project_starter.Base.Exec.{ok, err, ◌>>=◌}
use go_project_starter.Apierr.{Err, unauthorized, unauthenticated, not_found}
use go_project_starter.Audit.{system}
use go_project_starter.Base.Assoc.{lookup, put, without}
use go_project_starter.Cache
use go_project_starter.Auth.Domain.User.{User, active, is_suspended}
use go_project_starter.Auth.Domain.RefreshToken.{
  RefreshToken, new_refresh_token, is_expired, is_revoked, revoke,
}
use go_project_starter.Auth.World.{
  Env, World, Claims, query, exec, new_id, new_opaque_token, record_best_effort,
}
use go_project_starter.Auth.Repository.Families.{
  is_active_of, group_keys, insert_by, sort_by, aggregate, active_family_ids, active_families,
}
use go_project_starter.Auth.Repository.Tokens.{
  token_by_hash, revoke_where, revokes_any, jtis_where, is_insertable, save, find_by_hash,
  revoke_by_id_if_active, revoke_family, jtis_by_family, list_active_families, of_family,
}
use go_project_starter.Auth.Repository.Tokens.Laws.{IsEnded}
use go_project_starter.Auth.Repository.Users.{user_by_id, find_by_id}
use go_project_starter.Auth.Command.Denylist.{jti_deny_key, deny_one, deny_all, deny, deny_family}
use go_project_starter.Auth.Command.Denylist.Effects.{CanDeny, IsDenied}
use go_project_starter.Auth.Command.Issuer.{
  TokenResult, clock_now, evict, enforce_session_cap, load_roles, family_for, store_token, sign,
  issue_in_family, issue,
}
use go_project_starter.Auth.Command.Refresh.{
  revoke_session, reused, exchange, for_user, timely, present, refresh,
}
use go_project_starter.Auth.Command.SignOut.{end_session, logout_token, logout, session_revoke}
use go_project_starter.Auth.Command.Authenticate.{is_denied, identity_of, authenticate}
use go_project_starter.Auth.Session.Rotation.{IsRotation, refresh-IsRotation}
use go_project_starter.Auth.Session.SingleUse.{here, next, log_out, refresh_single_use}
use go_project_starter.Auth.Session.Reuse.{IsContained, reuse_is_refused, reuse_ends_session}
use go_project_starter.Auth.Session.Ending.{HasEnded, logout_ends_session, logout_of_other}
use go_project_starter.Auth.Session.Owned.{session_revoke_of_other}
use go_project_starter.Auth.Session.SignedOut.{logout_refuses_access}
use go_project_starter.Auth.Session.Access.{authenticate_sound, denied_token_revives}

-- What a run computes with.
running : Unit {0}
unfolding trim_space same lookup put without Cache.get Cache.set is_suspended new_refresh_token
    is_expired is_revoked revoke query exec new_id new_opaque_token record_best_effort
    active_families is_active_of group_keys sort_by insert_by aggregate active_family_ids
    token_by_hash revoke_where revokes_any jtis_where is_insertable save find_by_hash
    revoke_by_id_if_active revoke_family jtis_by_family list_active_families user_by_id find_by_id
    jti_deny_key deny_one deny_all deny deny_family clock_now evict enforce_session_cap load_roles
    family_for store_token sign issue_in_family issue revoke_session reused exchange for_user timely
    present refresh end_session logout_token logout session_revoke is_denied identity_of
    authenticate ◌>>=◌
running = tt

abbrev pub ann : User
ann = record {
  id = codes "ann";
  name = codes "Ann";
  email = none;
  phone = none;
  password_hash = [];
  email_verified_at = none;
  phone_verified_at = none;
  totp_secret = [];
  totp_confirmed_at = none;
  status = active;
  created_at = 0;
  updated_at = 0;
}

abbrev pub test_env : Env
test_env = record {
  fails = λ c. false;
  fresh_id = λ n. b'i' ∷ n ∷ [];
  fresh_token = λ n. b't' ∷ n ∷ [];
  hashes = record {
    hash_secret = λ raw. b'#' ∷ raw;
    generate = λ raw. ok (b'$' ∷ raw);
    compare_hash = λ hash raw. same hash (b'$' ∷ raw);
  };
  compare_password = λ password hash. same hash (b'$' ∷ password);
  issue_access_token = λ claims ttl now. ok (b'a' ∷ claims.jti);
  parse_access_token =
      λ raw now. ok (record { user_id = codes "ann"; roles = []; jti = codes "j1" });
  roles = none;
  totp_valid = λ secret code now. ok (same secret code);
  access_ttl = 15;
  refresh_ttl = 100;
  max_sessions = pos 2;
  has_cache = true;
  has_auditor = true;
  actor = record { kind = system; id = []; ip_address = []; user_agent = [] };
}

-- A token of Ann's, for the raw value "raw1", as it is at a time of revocation or none.
abbrev ann_token : Option ℕ → RefreshToken
ann_token revoked_at = record {
  id = codes "r1";
  user_id = codes "ann";
  family_id = codes "f1";
  jti = codes "j1";
  token_hash = codes "#raw1";
  expires_at = 90;
  revoked_at = revoked_at;
  created_at = 5;
  updated_at = 5;
}

abbrev test_world : Option ℕ → World
test_world revoked_at = record {
  now = 20;
  drawn = 0;
  users = ann ∷ [];
  tokens = ann_token revoked_at ∷ [];
  codes = [];
  recovery = [];
  cache = [];
  trail = [];
}

abbrev pub live_world : World
live_world = test_world none

abbrev new_tokens : TokenResult
new_tokens = record {
  access_token = b'a' ∷ b'i' ∷ 0 ∷ [];
  refresh_token = b't' ∷ 1 ∷ [];
  expires_in = 15;
}

abbrev rotated_world : World
rotated_world = (refresh test_env (codes " raw1") live_world).1

rotates : refresh test_env (codes " raw1") live_world ≡ (ok new_tokens, rotated_world)
unfolding running
rotates = refl

refuses_again : (refresh test_env (codes "raw1") rotated_world).0 ≡ err unauthorized
unfolding running
refuses_again = refl

opens_session :
    (issue test_env (codes "ann") live_world).0
    ≡ ok (record {
      access_token = b'a' ∷ b'i' ∷ 1 ∷ [];
      refresh_token = b't' ∷ 2 ∷ [];
      expires_in = 15;
    })
unfolding running
opens_session = refl

refresh-IsRotation_example : IsRotation test_env (codes " raw1") live_world new_tokens rotated_world
refresh-IsRotation_example =
    refresh-IsRotation test_env (codes " raw1") live_world (refl, tt) rotates

-- A log out by Ann in between.
refresh_single_use_example :
    refresh test_env (codes " raw1") (logout test_env (codes "ann") (codes "x") rotated_world).1
    ≢ (ok new_tokens, live_world)
refresh_single_use_example =
    refresh_single_use test_env test_env (codes " raw1") live_world rotated_world
      (logout test_env (codes "ann") (codes "x") rotated_world).1 live_world new_tokens new_tokens
      rotates (next here (log_out test_env (codes "ann") (codes "x") rotated_world)) refl

can_deny : CanDeny test_env (codes "f1")
can_deny = record { wired = refl; lives = omega arith; writes = λ key. refl; reads = refl }

reuse_ends_session_example :
    ((refresh test_env (codes "raw1") (test_world (some 7))).0 ≡ err unauthorized)
    × IsEnded (codes "f1") (refresh test_env (codes "raw1") (test_world (some 7))).1.tokens
    × All
        (λ j.
          (is_empty j ≡ true)
          ⊎ IsDenied 30 j (refresh test_env (codes "raw1") (test_world (some 7))).1.cache)
        (jtis_where (of_family (codes "f1")) (test_world (some 7)).tokens)
unfolding running
reuse_ends_session_example =
    reuse_ends_session test_env (codes "raw1") (test_world (some 7)) (ann_token (some 7)) 30 refl
      refl refl refl refl refl can_deny (omega arith)

logout_ends_session_example :
    ((logout test_env (codes "ann") (codes "raw1") live_world).0 ≡ ok tt)
    × HasEnded test_env
        (codes "f1")
        35
        live_world
        (logout test_env (codes "ann") (codes "raw1") live_world).1
unfolding running
logout_ends_session_example =
    logout_ends_session test_env (codes "raw1") live_world (ann_token none) 35 refl refl refl refl
      can_deny (omega arith)

ann_is_not_bob : codes "ann" ≢ codes "bob"
unfolding running
ann_is_not_bob e = false≢true ((same_iff (codes "ann") (codes "bob")).1 e)

logout_of_other_example : (logout test_env (codes "bob") (codes "raw1") live_world).1 ≡ live_world
unfolding running
logout_of_other_example =
    logout_of_other test_env (codes "bob") (codes "raw1") live_world (ann_token none) refl
      ann_is_not_bob

-- Bob has no token in the session of Ann.
session_revoke_of_other_example :
    session_revoke test_env (codes "bob") (codes "f1") live_world ≡ (err not_found, live_world)
unfolding running
session_revoke_of_other_example =
    session_revoke_of_other test_env (codes "bob") (codes "f1") live_world refl

abbrev ann_claims : Claims
ann_claims = record { user_id = codes "ann"; roles = []; jti = codes "j1" }

abbrev denied_world : World
denied_world = (deny_one test_env (codes "j1") live_world).1

-- Ann logs out, and her access token is refused 10 time units later.
logout_refuses_access_example :
    authenticate test_env
      (codes "access")
      (record (logout test_env (codes "ann") (codes "raw1") live_world).1 { now = 30 })
    ≡ err unauthenticated
unfolding running
logout_refuses_access_example =
    logout_refuses_access test_env (codes "raw1") (codes "access") live_world
      (record (logout test_env (codes "ann") (codes "raw1") live_world).1 { now = 30 })
      (ann_token none) ann_claims refl refl refl refl can_deny refl (omega arith) refl refl refl
      refl

reuse_is_refused_example :
    (e : Err) × ((refresh test_env (codes "raw1") (test_world (some 7))).0 ≡ err e)
    × IsContained
        (ann_token (some 7))
        (test_world (some 7))
        (refresh test_env (codes "raw1") (test_world (some 7))).1
unfolding running
reuse_is_refused_example =
    reuse_is_refused test_env (codes "raw1") (test_world (some 7)) (ann_token (some 7)) refl refl

lets_in :
    authenticate test_env (codes "access") live_world
    ≡ ok (record { user_id = codes "ann"; roles = [] })
unfolding running
lets_in = refl

authenticate_sound_example :
    (claims : Claims) × (u : User) × (test_env.parse_access_token (codes "access") live_world.now
      ≡ ok claims)
    × (codes "ann" ≡ claims.user_id)
    × ([] ≡ claims.roles)
    × (user_by_id claims.user_id live_world.users ≡ some u)
    × (u.status ≡ active)
    × (is_denied test_env claims live_world ≡ false)
authenticate_sound_example =
    authenticate_sound test_env (codes "access") live_world
      (record { user_id = codes "ann"; roles = [] }) lets_in

-- The entry was written at 20 for 15, and the clock is at 36.
denied_token_revives_example :
    authenticate test_env (codes "access") (record denied_world { now = 36 })
    ≡ ok (record { user_id = codes "ann"; roles = [] })
unfolding running
denied_token_revives_example =
    denied_token_revives test_env (codes "access") live_world (record denied_world { now = 36 })
      ann_claims ann refl refl (omega arith) (omega arith) refl refl refl refl
