-- ===== src/Auth/Login/Link.antt =====
-- What presenting a magic link answers once the link is no longer open.
use go_project_starter.Base.{
  ℕ, Bool, false, not, ◌&&◌, none, List, [], ◌∷◌, ltb, All, All-map, ◌≡◌, refl, ◌∙◌, arith, ℤ,
}
use go_project_starter.Base.Texts.{Text, same, is_empty, trim_space}
use go_project_starter.Base.Exec.{ok, err, raise, bind_known}
use go_project_starter.Apierr.{not_found}
use go_project_starter.Auth.Domain.VerificationCode.{VerificationCode, magic_link, is_consumed}
use go_project_starter.Auth.World.{Env, World, query, find_code}
use go_project_starter.Auth.Repository.Codes.{newest_code, of_purpose, is_open, find_active_by_hash}
use go_project_starter.Auth.Command.MagicLink.{open_link, magic_link_verify}

newest_code-none :
    (p : VerificationCode → Bool) (cs : List VerificationCode)
    → All (λ c. p c ≡ false) cs
    → newest_code p cs ≡ none
unfolding newest_code
newest_code-none p [] h = refl
newest_code-none p (c ∷ cs) h = rw h.0 (newest_code-none p cs h.1)

-- A link that was consumed, or whose time has come.
abbrev pub IsClosed : ℕ → Text → VerificationCode → Type 0
IsClosed now hash c = (same c.code_hash hash && not (is_consumed c) && ltb now c.expires_at) ≡ false

closed :
    (now : ℕ) (hash : Text) (c : VerificationCode)
    → IsClosed now hash c
    → (of_purpose magic_link c && same c.code_hash hash && is_open now c) ≡ false
unfolding is_open
closed now hash c h = ground arith

module _ (env : Env) (ttl : ℤ) where
  reading :
      (hash : Text) (w : World)
      → env.fails find_code ≡ false
      → All (IsClosed w.now hash) w.codes
      → find_active_by_hash env magic_link hash w ≡ (ok none, w)
  unfolding find_active_by_hash query
  reading hash w reads h =
      let none_open =
        newest_code-none _ w.codes
          (All-map (IsClosed w.now hash) _ (closed w.now hash) w.codes h) in
      rw (reads, none_open) refl

  answer : (w : World) → open_link env ttl none w ≡ (err not_found, w)
  unfolding open_link raise
  answer w = refl

  -- A link that has expired is answered as one that was used or never sent, by not found, and
  -- nothing changes, where the codes can be read.
  pub closed_link :
      (raw : Text) (w : World)
      → env.fails find_code ≡ false
      → is_empty (trim_space raw) ≡ false
      → All (IsClosed w.now (env.hashes.hash_secret (trim_space raw))) w.codes
      → magic_link_verify env ttl raw w ≡ (err not_found, w)
  unfolding magic_link_verify
  closed_link raw w reads given h =
      let hash = env.hashes.hash_secret (trim_space raw) in
      rw given (
        bind_known (find_active_by_hash env magic_link hash) _ w none w (reading hash w reads h)
        ∙ answer w)
