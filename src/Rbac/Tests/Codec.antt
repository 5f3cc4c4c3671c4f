-- ===== src/Rbac/Tests/Codec.antt =====
-- A text for each entry of the cache that reads back: a sign and a number, and lists whose ends and
-- whose texts' ends are marked.
use go_project_starter.Base.{
  ℕ, zero, suc, ◌≡◌, refl, ap, Option, none, some, List, [], ◌∷◌, ℤ, pos, negsuc,
}
use go_project_starter.Base.Texts.{Text}
use go_project_starter.Rbac.World.{UserEntry}

unfoldable pub put_text : Text → Text → Text
put_text [] rest = 1 ∷ rest
put_text (c ∷ s) rest = suc (suc c) ∷ put_text s rest

unfoldable pub put_texts : List Text → Text → Text
unfolding put_text
put_texts [] rest = 0 ∷ rest
put_texts (t ∷ ts) rest = put_text t (put_texts ts rest)

unfoldable pub cons_char : ℕ → List Text × Text → List Text × Text
cons_char c ([], rest) = ((c ∷ []) ∷ [], rest)
cons_char c (t ∷ ts, rest) = ((c ∷ t) ∷ ts, rest)

unfoldable pub take_texts : Text → List Text × Text
unfolding cons_char
take_texts [] = ([], [])
take_texts (zero ∷ s) = ([], s)
take_texts (suc zero ∷ s) = let (ts, rest) = take_texts s in ([] ∷ ts, rest)
take_texts (suc (suc c) ∷ s) = cons_char c (take_texts s)

take-put_text :
    (t : Text) (ts : List Text) (s rest : Text)
    → take_texts s ≡ (ts, rest)
    → take_texts (put_text t s) ≡ (t ∷ ts, rest)
unfolding take_texts put_text cons_char
take-put_text [] ts s rest h = rw h refl
take-put_text (c ∷ t) ts s rest h = rw (take-put_text t ts s rest h) refl

take-put_texts : (ts : List Text) (rest : Text) → take_texts (put_texts ts rest) ≡ (ts, rest)
unfolding take_texts put_texts
take-put_texts [] rest = refl
take-put_texts (t ∷ ts) rest = take-put_text t ts (put_texts ts rest) rest (take-put_texts ts rest)

unfoldable pub put_version : ℤ → Text → Text
put_version (pos n) rest = 0 ∷ n ∷ rest
put_version (negsuc n) rest = 1 ∷ n ∷ rest

unfoldable pub encode : UserEntry → Text
unfolding put_texts put_version
encode e = put_version e.version (put_texts e.roles (put_texts e.permissions []))

unfoldable pub decode_lists : ℤ → Text → UserEntry
unfolding take_texts
decode_lists v s =
    let (roles, rest) = take_texts s in
    record { version = v; roles = roles; permissions = (take_texts rest).0 }

unfoldable pub decode : Text → Option UserEntry
unfolding decode_lists
decode [] = none
decode (c ∷ []) = none
decode (zero ∷ n ∷ s) = some (decode_lists (pos n) s)
decode (suc c ∷ n ∷ s) = some (decode_lists (negsuc n) s)

decode_lists-put_texts :
    (v : ℤ) (roles ps : List Text)
    → decode_lists v (put_texts roles (put_texts ps []))
      ≡ record { version = v; roles = roles; permissions = ps }
unfolding decode_lists
decode_lists-put_texts v roles ps =
    rw (take-put_texts roles (put_texts ps []), take-put_texts ps []) refl

decode-put_version : (v : ℤ) (s : Text) → decode (put_version v s) ≡ some (decode_lists v s)
unfolding decode put_version
decode-put_version (pos n) s = refl
decode-put_version (negsuc n) s = refl

pub decode-encode : (e : UserEntry) → decode (encode e) ≡ some e
unfolding encode
decode-encode e =
    rw (decode-put_version e.version (put_texts e.roles (put_texts e.permissions [])))
      (ap some (decode_lists-put_texts e.version e.roles e.permissions))
