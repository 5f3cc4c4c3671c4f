-- ===== src/Rbac/Guards/Links.antt =====
-- The rows of user_roles after a link is put there or taken away.
use go_project_starter.Base.{
  suc, ◌≤◌, ◌≡◌, refl, true, false, ◌&&◌, ◌||◌, List, [], ◌∷◌, ◌++◌, arith, and-eq-true, Bool-cases,
  inl, inr,
}
use go_project_starter.Base.Texts.{Text, same, same_iff}
use go_project_starter.Rbac.Tables.{Link, has_link, linked, insert_link, delete_link, count_users}
use go_project_starter.Rbac.Guards.{IsKeyedLinks}

linked-append :
    (x k : Text) (ls ms : List Link) → linked x k (ls ++ ms) ≡ (linked x k ls || linked x k ms)
linked-append x k [] ms = refl
linked-append x k (l ∷ ls) ms = ground (arith, linked-append x k ls ms)

linked-same :
    (u x i k : Text) (ls : List Link)
    → linked u i ls ≡ true
    → (same u x && same i k) ≡ true
    → linked x k ls ≡ true
linked-same u x i k ls h e =
    let (users, roles) = and-eq-true (same u x) (same i k) e in
    rw (← (same_iff u x).0 users, ← (same_iff i k).0 roles) h

pub linked-insert_link :
    (x k u i : Text) (ls : List Link)
    → linked x k (insert_link u i ls) ≡ (linked x k ls || (same u x && same i k))
unfolding insert_link
linked-insert_link x k u i ls =
    ground
      (arith, linked-append x k ls (record { left = u; right = i } ∷ []), linked-same u x i k ls)

-- Who was not linked loses nothing.
pub delete_link_absent :
    (u i : Text) (ls : List Link) → linked u i ls ≡ false → delete_link u i ls ≡ ls
unfolding delete_link
delete_link_absent u i [] h = refl
delete_link_absent u i (l ∷ ls) h = ground (arith, delete_link_absent u i ls)

-- Another role keeps its users.
pub count_users-delete_link_apart :
    (u i k : Text) (ls : List Link)
    → same i k ≡ false
    → count_users k (delete_link u i ls) ≡ count_users k ls
unfolding delete_link count_users
count_users-delete_link_apart u i k [] h = refl
count_users-delete_link_apart u i k (l ∷ ls) h = ground (
  arith,
  count_users-delete_link_apart u i k ls h,
  same_iff l.right i,
  same_iff l.right k,
  same_iff i k,
)

first_gone :
    (u i : Text) (l : Link) (ls : List Link)
    → has_link u i l ≡ true
    → linked l.left l.right ls ≡ false
    → count_users i (l ∷ ls) ≤ suc (count_users i (delete_link u i (l ∷ ls)))
unfolding count_users delete_link
first_gone u i l ls hit alone =
    let (users, roles) = and-eq-true (same l.left u) (same l.right i) hit in
    let absent : linked u i ls ≡ false =
      rw (← (same_iff l.left u).0 users, ← (same_iff l.right i).0 roles) alone in
    ground (arith, delete_link_absent u i ls absent)

-- A role loses one user at most.
pub count_users-delete_link :
    (u i : Text) (ls : List Link)
    → IsKeyedLinks ls
    → count_users i ls ≤ suc (count_users i (delete_link u i ls))
unfolding count_users delete_link
count_users-delete_link u i [] keyed = omega arith
count_users-delete_link u i (l ∷ ls) keyed = elim (Bool-cases (has_link u i l)) [
  | inl hit ↦ first_gone u i l ls hit keyed.0
  | inr miss ↦ ground (arith, count_users-delete_link u i ls keyed.1)
]
