-- ===== src/Auth/Login/Redeem.antt =====
-- A challenge is redeemed for what it was issued for, once.
use go_project_starter.Base.{
  ℕ, suc, ◌+◌, ◌≤◌, ◌≡◌, refl, ap, ◌∙◌, true, false, Option, none, some, [], ◌∷◌, ◌++◌, arith, pos,
}
use go_project_starter.Base.Texts.{Text, same_refl, is_empty, trim_space, cut, contains}
use go_project_starter.Base.Exec.{Result, ok, err, pure, raise, ◌>>=◌}
use go_project_starter.Apierr.{invalid}
use go_project_starter.Cache
use go_project_starter.Cache.{Memory}
use go_project_starter.Cache.Laws.{get-set, get_delete_once}
use go_project_starter.Auth.World.{Env, World, exec, new_opaque_token, cache_set, cache_get_delete}
use go_project_starter.Auth.Command.Challenge.{
  challenge_key, challenge_value, issue_challenge, redeem, split_value, open_challenge,
  take_challenge,
}

cut-append : (c : ℕ) (s t : Text) → contains c s ≡ false → cut c (s ++ c ∷ t) ≡ some (s, t)
unfolding cut contains
cut-append c [] t h = ground arith
cut-append c (d ∷ s) t h = ground (arith, cut-append c s t)

-- The value of a challenge opens to what it was made of.
open-value :
    (env : Env) (user_id identifier : Text) (w : World)
    → contains b'|' user_id ≡ false
    → is_empty user_id ≡ false
    → open_challenge env (some (challenge_value user_id identifier)) w
      ≡ (ok (user_id, identifier), w)
unfolding open_challenge challenge_value split_value pure
open-value env user_id identifier w plain filled =
    rw (cut-append b'|' user_id identifier plain, split_value, filled) refl

module _ (env : Env) (w : World) (token : Text) where
  abbrev taken : World
  taken = record w { cache = (Cache.get_delete w.now (challenge_key token) w.cache).1 }

  -- A token that has no blanks around it, where the cache answers.
  take_challenge_lem :
      env.has_cache ≡ true
      → env.fails (cache_get_delete (challenge_key token)) ≡ false
      → trim_space token ≡ token
      → is_empty token ≡ false
      → take_challenge env token w
        ≡ open_challenge env (Cache.get w.now (challenge_key token) w.cache) taken
  unfolding take_challenge redeem ◌>>=◌ Cache.get Cache.get_delete
  take_challenge_lem cached works trimmed filled = simp (cached, trimmed, filled, works) refl

-- The clock, moved on.
abbrev pub at_time : ℕ → World → World
at_time now w = record w { now = now }

module _ (env : Env) (w : World) (n : ℕ) (user_id identifier : Text) where
  abbrev drawn_token : Text
  drawn_token = env.fresh_token w.drawn

  abbrev issued_world : World
  issued_world = record w {
    drawn = suc w.drawn;
    cache =
        Cache.set w.now (challenge_key drawn_token) (challenge_value user_id identifier)
          (pos (suc n)) w.cache;
  }

  issue_challenge_lem :
      env.has_cache ≡ true
      → env.fails (cache_set (challenge_key drawn_token)) ≡ false
      → issue_challenge env (pos (suc n)) user_id identifier w ≡ (ok drawn_token, issued_world)
  unfolding issue_challenge new_opaque_token exec pure ◌>>=◌
  issue_challenge_lem cached works = simp (cached, works) refl

  still_there :
      (later : ℕ)
      → later ≤ w.now + suc n
      → Cache.get later (challenge_key drawn_token) issued_world.cache
        ≡ some (challenge_value user_id identifier)
  still_there later h = ground (
    arith,
    get-set w.now later (challenge_key drawn_token) (challenge_key drawn_token)
        (challenge_value user_id identifier) (pos (suc n)) w.cache,
    same_refl (challenge_key drawn_token),
  )

nothing_left :
    (env : Env) (w : World) (o : Option Text) → o ≡ none → (open_challenge env o w).0 ≡ err invalid
unfolding open_challenge raise
nothing_left env w o e = rw e refl

-- A challenge that is issued for an identifier and a user, whose identifier is not empty and has no
-- bar in it, is redeemed, until its ttl has passed, for that user and identifier, and once only: the
-- next try is refused. The cache is wired and answers, and a token has no blanks around it.
pub challenge_round_trip :
    (env : Env) (w : World) (n later : ℕ) (user_id identifier : Text)
    → env.has_cache ≡ true
    → env.fails (cache_set (challenge_key (env.fresh_token w.drawn))) ≡ false
    → env.fails (cache_get_delete (challenge_key (env.fresh_token w.drawn))) ≡ false
    → trim_space (env.fresh_token w.drawn) ≡ env.fresh_token w.drawn
    → is_empty (env.fresh_token w.drawn) ≡ false
    → contains b'|' user_id ≡ false
    → is_empty user_id ≡ false
    → later ≤ w.now + suc n
    → let issued = issue_challenge env (pos (suc n)) user_id identifier w in
      let first = take_challenge env (env.fresh_token w.drawn) (at_time later issued.1) in
      (issued.0 ≡ ok (env.fresh_token w.drawn))
      × (first.0 ≡ ok (user_id, identifier))
      × ((take_challenge env (env.fresh_token w.drawn) first.1).0 ≡ err invalid)
challenge_round_trip env w n later user_id identifier cached sets gets trimmed filled plain given
      h =
    rw (issue_challenge_lem env w n user_id identifier cached sets, first_lem)
      (refl, refl, second_lem)
  where
    token : Text
    token = env.fresh_token w.drawn

    before : World
    before = at_time later (issued_world env w n user_id identifier)

    after : World
    after = taken env before token

    first_lem : take_challenge env token before ≡ (ok (user_id, identifier), after)
    first_lem =
        take_challenge_lem env before token cached gets trimmed filled
        ∙ ap (λ o. open_challenge env o after) (still_there env w n user_id identifier later h)
        ∙ open-value env user_id identifier after plain given

    gone : Cache.get later (challenge_key token) after.cache ≡ none
    gone =
        (get_delete_once later later (challenge_key token) (challenge_key token) before.cache).1
        ∙ rw (same_refl (challenge_key token)) refl

    second_lem : (take_challenge env token after).0 ≡ err invalid
    second_lem =
        ap (λ (r : Result (Text × Text) × World). r.0)
          (take_challenge_lem env after token cached gets trimmed filled)
        ∙ nothing_left env (taken env after token)
            (Cache.get later (challenge_key token) after.cache) gone
