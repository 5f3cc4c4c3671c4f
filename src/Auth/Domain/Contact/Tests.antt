-- ===== src/Auth/Domain/Contact/Tests.antt =====
-- Runs of the normalization of phone numbers, and its theorems at them.
use go_project_starter.Base.{◌≡◌, refl}
use go_project_starter.Base.Texts.{codes, trim_space, cut_prefix, has_prefix, trim_prefix}
use go_project_starter.Base.Exec.{ok, err}
use go_project_starter.Apierr.{invalid}
use go_project_starter.Auth.Domain.Contact.{
  clean, valid_phone, international, expand_local, with_plus, drop_trunk, checked, normalize_phone,
}
use go_project_starter.Auth.Domain.Contact.Laws.{IsCanonical, normalize_phone-IsCanonical}

running : Unit {0}
unfolding trim_space cut_prefix has_prefix trim_prefix clean valid_phone international expand_local
    with_plus drop_trunk checked normalize_phone
running = tt

local : normalize_phone (codes " 0812-345 678 ") (codes "62") ≡ ok (codes "+62812345678")
unfolding running
local = refl

ambiguous : normalize_phone (codes "0812345678") (codes "") ≡ err invalid
unfolding running
ambiguous = refl

normalize_phone-IsCanonical_example : IsCanonical (codes "+62812345678")
normalize_phone-IsCanonical_example =
    normalize_phone-IsCanonical (codes " 0812-345 678 ") (codes "62") (codes "+62812345678") local
