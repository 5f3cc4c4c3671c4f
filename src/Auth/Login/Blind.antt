-- ===== src/Auth/Login/Blind.antt =====
-- That a request to deliver a code or a link does not look at the accounts: what it answers, and
-- what it queues, follow from the cache, the time and the queue.
use go_project_starter.Base.{
  ℕ, Bool, true, false, Option, none, some, [], ◌∷◌, ◌++◌, ◌≡◌, refl, ap, if◌then◌else◌, Bool-cases,
  inl, inr,
}
use go_project_starter.Base.Texts.{Text}
use go_project_starter.Base.Exec.{
  Result, ok, err, Exec, pure, raise, best_effort, ◌>>=◌, followed_by,
}
use go_project_starter.Apierr.{Err}
use go_project_starter.Auth.World.{Env, World, Call, enqueue_task, M, exec}
use go_project_starter.Auth.Command.RateLimit.{Limiter, count_up, renew, check_limit, limiter_key}
use go_project_starter.Auth.Command.Delivery.{
  DeliveryTask, Desk, onto, enqueue_delivery, limited, request_delivery, forgot_password,
  forgot_task, send_magic_link_email, magic_link_request,
}

-- From states that an observer cannot tell apart, an action has one result, and leaves such
-- states.
pub record Blind {S A : Type 0} (R : S → S → Type 0) (m : Exec S A) : Type 0 where
  pub same : (s t : S) → R s t → ((m s).0 ≡ (m t).0) × R (m s).1 (m t).1

module _ {S : Type 0} {R : S → S → Type 0} where
  module _ {A B : Type 0} (k : A → Exec S B) (each : (a : A) → Blind R (k a)) where
    Blind-followed_by :
        (r : Result A) (s t : S)
        → R s t
        → ((followed_by k s r).0 ≡ (followed_by k t r).0)
          × R (followed_by k s r).1 (followed_by k t r).1
    Blind-followed_by (err e) s t h = (refl, h)
    Blind-followed_by (ok a) s t h = (each a).same s t h

    pub Blind-bind : (m : Exec S A) → Blind R m → Blind R (m >>= k)
    unfolding ◌>>=◌
    Blind-bind m first = record {
      same = λ s t h.
          let (e, h1) = first.same s t h in rw e (Blind-followed_by (m t).0 (m s).1 (m t).1 h1);
    }

  module _ {A : Type 0} where
    pub Blind-pure : (a : A) → Blind R (pure a)
    unfolding pure
    Blind-pure a = record { same = λ s t h. (refl, h) }

    pub Blind-raise : (e : Err) → Blind {A = A} R (raise e)
    unfolding raise
    Blind-raise e = record { same = λ s t h. (refl, h) }

    pub Blind-best_effort : (m : Exec S A) → Blind R m → Blind R (best_effort m)
    unfolding best_effort
    Blind-best_effort m blind = record { same = λ s t h. (refl, (blind.same s t h).1) }

    pub Blind-if :
        (b : Bool) {m n : Exec S A} → Blind R m → Blind R n → Blind R (if b then m else n)
    Blind-if true first second = first
    Blind-if false first second = second

-- The same time and the same cache, whatever the tables hold.
abbrev pub SameCache : World → World → Type 0
SameCache w v = (w.now ≡ v.now) × (w.cache ≡ v.cache)

-- And the same queue.
abbrev pub SameDesk : Desk → Desk → Type 0
SameDesk d e = SameCache d.world e.world × (d.queued ≡ e.queued)

module _ (env : Env) where
  Blind-exec :
      {A : Type 0} (c : Call) (f : World → A × World)
      → ((w v : World) → SameCache w v → ((f w).0 ≡ (f v).0) × SameCache (f w).1 (f v).1)
      → Blind SameCache (exec env c f)
  unfolding exec
  Blind-exec c f k = record {
    same = λ w v h. elim (Bool-cases (env.fails c)) [
      | inr e ↦ rw e (ap ok (k w v h).0, (k w v h).1)
      | inl e ↦ rw e (refl, h)
    ];
  }

  Blind-check_limit :
      (l : Limiter) (target ip : Text) → Blind SameCache (check_limit env l target ip)
  unfolding check_limit count_up renew
  Blind-check_limit l target ip =
      let key = limiter_key env l target ip in
      Blind-bind _
        (λ n.
          Blind-bind _ (λ _. Blind-if _ (Blind-raise _) (Blind-pure _)) _
            (Blind-best_effort _
              (Blind-exec _ _ λ w v (now, cache). rw (now, cache) (refl, (refl, refl)))))
        _ (Blind-exec _ _ λ w v (now, cache). rw (now, cache) (refl, (refl, refl)))

  Blind-onto : {A : Type 0} (m : M A) → Blind SameCache m → Blind SameDesk (onto m)
  unfolding onto
  Blind-onto m blind = record {
    same = λ d e (cached, queued).
        let (answer, kept) = blind.same d.world e.world cached in (answer, (kept, queued));
  }

  Blind-enqueue_delivery : (t : DeliveryTask) → Blind SameDesk (enqueue_delivery env t)
  unfolding enqueue_delivery
  Blind-enqueue_delivery t = record {
    same = λ d e (cached, queued). elim (Bool-cases (env.fails enqueue_task)) [
      | inl failing ↦ rw failing (refl, (cached, queued))
      | inr working ↦ rw working (refl, (cached, ap (λ q. q ++ t ∷ []) queued))
    ];
  }

  Blind-limited :
      (limiter : Option Limiter) (target ip : Text) → Blind SameDesk (limited env limiter target ip)
  unfolding limited
  Blind-limited none target ip = Blind-pure _
  Blind-limited (some l) target ip = Blind-onto _ (Blind-check_limit l target ip)

  module _ (limiter : Option Limiter) (ttl : ℕ) where
    Blind-request :
        (task : Text → DeliveryTask) (r : Result Text) (ip : Text)
        → Blind SameDesk (request_delivery env limiter ttl task r ip)
    unfolding request_delivery
    Blind-request task (err e) ip = Blind-raise _
    Blind-request task (ok target) ip =
        Blind-bind _ (λ _. Blind-bind _ (λ _. Blind-pure _) _ (Blind-enqueue_delivery _)) _
          (Blind-limited limiter target ip)

    -- Asking for a reset code or for a magic link does not tell whether an account exists: from
    -- the same time, cache and queue, the answer is the same whatever the tables hold, and so are
    -- the cache and the queue that are left; whichever calls fail.
    pub requests_are_blind :
        (normalize_email : Text → Result Text) (country_code identifier ip : Text) (d e : Desk)
        → SameDesk d e
        → let forgot = forgot_password env limiter ttl normalize_email country_code identifier ip in
          let asked = magic_link_request env limiter ttl normalize_email identifier ip in
          (((forgot d).0 ≡ (forgot e).0) × SameDesk (forgot d).1 (forgot e).1)
          × ((asked d).0 ≡ (asked e).0)
          × SameDesk (asked d).1 (asked e).1
    unfolding forgot_password magic_link_request
    requests_are_blind normalize_email country_code identifier ip d e h =
        let (answer, kept) =
          (Blind-request send_magic_link_email (normalize_email identifier) ip).same d e h in
        ((Blind-request forgot_task _ ip).same d e h, answer, kept)
