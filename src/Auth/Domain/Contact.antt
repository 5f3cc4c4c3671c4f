-- ===== src/Auth/Domain/Contact.antt =====
-- internal/modules/auth/domain/contact.go: phone numbers. `NormalizeEmail` rests on `net/mail`.
pub mod Laws
pub mod Tests
use go_project_starter.Base.{
  ℕ, Bool, true, false, not, ◌&&◌, ◌||◌, Option, none, some, if◌then◌else◌, [], ◌∷◌, ◌++◌, length,
  select, ltb, leb, ◌==◌,
}
use go_project_starter.Base.Texts.{
  Text, codes, is_empty, trim_space, cut_prefix, has_prefix, trim_prefix,
}
use go_project_starter.Base.Exec.{Result, ok, err}
use go_project_starter.Apierr.{invalid}

abbrev pub is_digit : ℕ → Bool
is_digit c = leb b'0' c && leb c b'9'

-- What `contactCleaner`, the pattern `[^0-9+]`, leaves.
unfoldable pub clean : Text → Text
clean = select (λ c. is_digit c || c == b'+')

abbrev pub all_digits : Text → Bool
all_digits [] = true
all_digits (c ∷ s) = is_digit c && all_digits s

-- `isValidPhone`.
unfoldable pub valid_phone : Text → Bool
valid_phone [] = false
valid_phone (c ∷ digits) =
    c == b'+' && not (ltb (length digits) 7 || ltb 15 (length digits)) && all_digits digits

-- `IsValidPhone`.
unfoldable pub is_valid_phone : Text → Bool
unfolding clean valid_phone
is_valid_phone raw = valid_phone (clean (trim_space raw))

-- A leading "00" becomes '+'.
unfoldable pub international : Text → Text
international phone = elim (cut_prefix (codes "00") phone) [
  | none ↦ phone
  | some rest ↦ b'+' ∷ rest
]

-- A leading '0' becomes '+' and the country code, if that is known.
unfoldable pub expand_local : Text → Text → Text
expand_local cc phone =
    if is_empty cc
    then phone
    else elim (cut_prefix (codes "0") phone) [ none ↦ phone | some rest ↦ b'+' ∷ cc ++ rest ]

unfoldable pub with_plus : Text → Text
with_plus phone = if has_prefix (codes "+") phone then phone else b'+' ∷ phone

-- One trunk zero behind the country code is dropped.
unfoldable pub drop_trunk : Text → Text → Text
drop_trunk cc phone =
    if is_empty cc then phone else elim (cut_prefix (b'+' ∷ cc ++ codes "0") phone) [
      | none ↦ phone
      | some rest ↦ b'+' ∷ cc ++ rest
    ]

-- Both branches on the country code end in this test, and then in `isValidPhone`.
unfoldable pub checked : Text → Result Text
checked phone =
    if has_prefix (codes "+0") phone
    then err invalid
    else if valid_phone phone
    then ok phone
    else err invalid

unfoldable pub normalize_phone : (raw default_country_code : Text) → Result Text
normalize_phone raw default_country_code =
    let phone = clean (trim_space raw) in
    let cc = trim_prefix (codes "+") default_country_code in
    if is_empty phone
    then err invalid
    else checked (drop_trunk cc (with_plus (expand_local cc (international phone))))
