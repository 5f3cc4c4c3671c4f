-- ===== src/Auth/Domain/Contact/Laws.antt =====
-- What a normalized phone number is.
use go_project_starter.Base.{ℕ, ◌≤◌, ◌≡◌, ◌≢◌, true, [], ◌∷◌, length, arith}
use go_project_starter.Base.Texts.{Text, codes, has_prefix, trim_space, trim_prefix}
use go_project_starter.Base.Exec.{ok}
use go_project_starter.Auth.Domain.Contact.{
  all_digits, clean, drop_trunk, with_plus, expand_local, international, valid_phone, checked,
  normalize_phone,
}

-- E.164: '+' and 7 to 15 digits, the first of which is not 0.
pub record IsCanonical (phone : Text) : Type 0 where
  pub first : ℕ
  pub others : Text
  pub shape : phone ≡ b'+' ∷ first ∷ others
  pub nonzero : first ≢ b'0'
  pub digits : all_digits (first ∷ others) ≡ true
  pub least : 6 ≤ length others
  pub most : length others ≤ 14

checked-IsCanonical : (phone p : Text) → checked phone ≡ ok p → IsCanonical p
unfolding checked valid_phone has_prefix
checked-IsCanonical [] p h = ground arith
checked-IsCanonical (c ∷ []) p h = ground arith
checked-IsCanonical (c ∷ d ∷ s) p h = record {
  first = d;
  others = s;
  shape = ground arith;
  nonzero = ground arith;
  digits = ground arith;
  least = ground arith;
  most = ground arith;
}

-- Whatever the input and the country code, what `normalize_phone` returns is canonical.
pub normalize_phone-IsCanonical : (raw cc p : Text) → normalize_phone raw cc ≡ ok p → IsCanonical p
unfolding normalize_phone
normalize_phone-IsCanonical raw cc p h =
    let phone = clean (trim_space raw) in
    let code = trim_prefix (codes "+") cc in
    checked-IsCanonical (drop_trunk code (with_plus (expand_local code (international phone)))) p
      (ground arith)
