-- ===== src/Auth/Login/Limit.antt =====
-- The counters of the rate limiter of login.go.
use go_project_starter.Base.{
  ℕ, zero, suc, ◌+◌, ◌≤◌, ◌<◌, ◌≡◌, refl, ap, ◌∙◌, Bool, true, false, some, if◌then◌else◌, arith,
  pos, ltb_ℤ, ◌+ℤ◌, pos_part,
}
use go_project_starter.Base.Texts.{Text, same_refl}
use go_project_starter.Base.Assoc.{lookup, put, lookup-put}
use go_project_starter.Base.Decimal.{max_int64, wrap_int64, format_int}
use go_project_starter.Base.Exec.{ok, err, pure, raise, best_effort, bind_known}
use go_project_starter.Apierr.{too_many_requests}
use go_project_starter.Cache.{
  Memory, MemItem, live_item, is_live, item_or_empty, number_of, increment, expire,
}
use go_project_starter.Cache.Laws.{counted, number_of_formatted}
use go_project_starter.Auth.World.{Env, World, exec, cache_increment, cache_expire}
use go_project_starter.Auth.Command.RateLimit.{Limiter, limiter_key, count_up, renew, check_limit}

counted-put :
    (later : ℕ) (key : Text) (item : MemItem) (m : Memory)
    → is_live later item ≡ true
    → counted later key (put key item m) ≡ number_of item
unfolding counted live_item item_or_empty
counted-put later key item m live = rw (lookup-put, same_refl, live) refl

expire-put :
    (now k : ℕ) (key : Text) (item : MemItem) (m : Memory)
    → expire now key (pos (suc k)) (put key item m)
      ≡ put key (record item { expires_at = some (now + suc k) }) (put key item m)
unfolding expire
expire-put now k key item m = ground (arith, lookup-put key key item m, same_refl key)

-- A counter that is counted up and renewed counts one more until the window has passed.
counted_up :
    (now later k n : ℕ) (key : Text) (m : Memory)
    → counted now key m ≡ pos n
    → n < max_int64
    → later ≤ now + suc k
    → ((increment now key (pos 1) m).0 ≡ pos (suc n))
      × (counted later key (expire now key (pos (suc k)) (increment now key (pos 1) m).1)
          ≡ pos (suc n))
unfolding increment counted
counted_up now later k n key m before small soon =
    let item = item_or_empty (live_item now (lookup key m)) in
    let sum : wrap_int64 (number_of item +ℤ pos 1) ≡ pos (suc n) = rw before (ground arith) in
    let value =
      number_of_formatted (record item { expires_at = some (now + suc k) }) (pos (suc n))
        (omega arith) in
    let written : MemItem = record item {
      value = format_int (wrap_int64 (number_of item +ℤ pos 1));
    } in
    let renewed : MemItem = record written { expires_at = some (now + suc k) } in
    let live : is_live later renewed ≡ true = unfold is_live in ground arith in
    (
      sum,
      ap (counted later key) (expire-put now k key written m)
          ∙ counted-put later key renewed (put key written m) live
          ∙ ap
              (λ z.
                number_of (record item { value = format_int z; expires_at = some (now + suc k) }))
              sum
          ∙ value,
    )

module _ (env : Env) (l : Limiter) (target ip : Text) where
  abbrev pub key : Text
  key = limiter_key env l target ip

  -- `n` attempts, each of them within the window of the one before.
  pub data Attempts : ℕ → World → Type 0 where
    first : {w : World} → counted w.now key w.cache ≡ pos 0 → Attempts 0 w
    another :
        {n : ℕ} {w v : World}
        → Attempts n w
        → v.cache ≡ (check_limit env l target ip w).1.cache
        → v.now ≤ w.now + pos_part l.window
        → Attempts (suc n) v

  module _ (k n : ℕ) (w : World) (window : l.window ≡ pos (suc k))
      (counts : env.fails (cache_increment key) ≡ false)
      (renews : env.fails (cache_expire key) ≡ false) (before : counted w.now key w.cache ≡ pos n)
      (small : n < max_int64) where
    abbrev counted_world : World
    counted_world = record w { cache = (increment w.now key (pos 1) w.cache).1 }

    abbrev renewed_world : World
    renewed_world = record w {
      cache = expire w.now key (pos (suc k)) (increment w.now key (pos 1) w.cache).1;
    }

    counting : count_up env l key w ≡ (ok (pos (suc n)), counted_world)
    unfolding count_up exec
    counting =
        let (sum, _) = counted_up w.now w.now k n key w.cache before small (omega arith) in
        rw (counts, sum) refl

    renewing : best_effort (renew env l key) counted_world ≡ (ok tt, renewed_world)
    unfolding best_effort renew exec
    renewing = rw (renews, window) refl

    last :
        (b : Bool) (v : World)
        → (if b then raise too_many_requests else pure tt) v
          ≡ ((if b then err too_many_requests else ok tt), v)
    unfolding raise pure
    last true v = refl
    last false v = refl

    checked :
        check_limit env l target ip w
        ≡ ((if ltb_ℤ l.most (pos (suc n)) then err too_many_requests else ok tt), renewed_world)
    unfolding check_limit
    checked =
        bind_known (count_up env l key) _ w (pos (suc n)) counted_world counting
        ∙ bind_known (best_effort (renew env l key)) _ counted_world tt renewed_world renewing
        ∙ last (ltb_ℤ l.most (pos (suc n))) renewed_world

  -- The key of an account and an address counts its attempts.
  attempts_counted :
      (k n : ℕ) (w : World)
      → l.window ≡ pos (suc k)
      → env.fails (cache_increment key) ≡ false
      → env.fails (cache_expire key) ≡ false
      → n < max_int64
      → Attempts n w
      → counted w.now key w.cache ≡ pos n
  attempts_counted k zero w window counts renews small (first empty) = empty
  attempts_counted k (suc n) v window counts renews small (another {w = w} past same soon) =
      let before = attempts_counted k n w window counts renews (omega arith) past in
      let (_, after) = counted_up w.now v.now k n key w.cache before (omega arith) (ground arith) in
      let cache : v.cache ≡ expire w.now key (pos (suc k)) (increment w.now key (pos 1) w.cache).1 =
        same ∙ ap (λ p. p.1.cache) (checked k n w window counts renews before (omega arith)) in
      ap (counted v.now key) cache ∙ after

  -- While the cache works, an attempt that follows `n` attempts, each within the window of the one
  -- before, passes exactly where `n + 1` is not more than the limit.
  pub check_limit_lem :
      (k n : ℕ) (w : World)
      → l.window ≡ pos (suc k)
      → env.fails (cache_increment key) ≡ false
      → env.fails (cache_expire key) ≡ false
      → n < max_int64
      → Attempts n w
      → (check_limit env l target ip w).0
        ≡ (if ltb_ℤ l.most (pos (suc n)) then err too_many_requests else ok tt)
  check_limit_lem k n w window counts renews small past =
      ap (λ p. p.0)
        (checked k n w window counts renews (attempts_counted k n w window counts renews small past)
          small)
