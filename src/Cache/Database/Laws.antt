-- ===== src/Cache/Database/Laws.antt =====
-- What a client of the table's cache sees, and how exact its time is.
use go_project_starter.Base.{
  ℕ, suc, ◌+◌, ◌≤◌, ◌<◌, ◌≡◌, refl, true, false, Option, none, some, arith, ltb, if◌then◌else◌, pos,
  Option-cases, inl, inr,
}
use go_project_starter.Base.Texts.{Text, same, same_iff, same_refl}
use go_project_starter.Base.Assoc.{lookup, lookup-put, lookup-without}
use go_project_starter.Cache.Database.{
  CacheRow, Rows, second, seconds, ceil_seconds, is_current, current_row, row_value, get, set,
  get_delete,
}

pub get-set :
    (now later n : ℕ) (k j v : Text) (m : Rows)
    → get later j (set now k v (pos (suc n)) m) ≡ (
        if same k j
        then (if ltb (seconds later) (seconds now + ceil_seconds (suc n)) then some v else none)
        else get later j m)
unfolding get set row_value current_row
get-set now later n k j v m = simp lookup-put (ground arith)

-- A value that is written with a positive ttl is read while less than the ttl but a second has
-- passed.
pub set_kept :
    (now later n : ℕ) (k v : Text) (m : Rows)
    → later + second < now + suc n
    → get later k (set now k v (pos (suc n)) m) ≡ some v
unfolding ceil_seconds
set_kept now later n k v m h =
    let early : ltb (seconds later) (seconds now + ceil_seconds (suc n)) ≡ true = ground arith in
    rw (get-set, same_refl, early) refl

-- A value that was written with a positive ttl is not read any more once the ttl and a second have
-- passed.
pub set_lapsed :
    (now later n : ℕ) (k v : Text) (m : Rows)
    → now + suc n + second ≤ later
    → get later k (set now k v (pos (suc n)) m) ≡ none
unfolding ceil_seconds
set_lapsed now later n k v m h =
    let late : ltb (seconds later) (seconds now + ceil_seconds (suc n)) ≡ false = ground arith in
    rw (get-set, same_refl, late) refl

-- A row that is not found is not found later.
stays_gone :
    (now wait : ℕ) (o : Option CacheRow)
    → current_row now o ≡ none
    → current_row (now + wait) o ≡ none
unfolding current_row is_current
stays_gone now wait none h = refl
stays_gone now wait (some r) h = ground arith

-- Redeeming a key returns what reading it would, and leaves it empty from then on, and every other
-- key as it was.
pub redeemed_once :
    (now wait : ℕ) (k j : Text) (m : Rows)
    → ((get_delete now k m).0 ≡ get now k m)
      × (get (now + wait) j (get_delete now k m).1
          ≡ (if same k j then none else get (now + wait) j m))
unfolding get get_delete row_value current_row
redeemed_once now wait k j m = elim (Option-cases (current_row now (lookup k m))) [
  | inl e ↦
      let gone = stays_gone now wait (lookup k m) e in
      (ground arith, ground (arith, gone, same_iff k j))
  | inr (r, e) ↦ (ground arith, ground (arith, lookup-without k j m))
]
