-- ===== src/Cache/Tests.antt =====
-- Runs of the cache, and its laws at them.
use go_project_starter.Base.{none, some, [], ◌∷◌, ◌≡◌, refl, arith, pos, ◌+ℤ◌, if◌then◌else◌}
use go_project_starter.Base.Texts.{codes, same}
use go_project_starter.Base.Assoc.{lookup, put, without}
use go_project_starter.Base.Decimal.{
  wrap_int64, parse_int, parse_magnitude, format_int, from_digits, to_digits,
}
use go_project_starter.Cache.{
  Memory, is_live, live_item, value_of, get, set, expiry, get_delete, increment, expire,
  item_or_empty, number_of,
}
use go_project_starter.Cache.Laws.{counted, counted-increment, get_delete_once, get-set, get-expire}

running : Unit {0}
unfolding same lookup put without parse_int parse_magnitude format_int from_digits to_digits is_live
    live_item value_of get set expiry get_delete increment expire item_or_empty number_of counted
running = tt

-- "hits" counts 9 until 40, and "name" is a text.
abbrev stored : Memory
stored =
    (codes "hits", record { value = codes "9"; expires_at = some 40 })
    ∷ (codes "name", record { value = codes "x"; expires_at = none })
    ∷ []

counts_on : (increment 30 (codes "hits") (pos 1) stored).0 ≡ pos 10
unfolding running
counts_on = refl

starts_again : (increment 50 (codes "hits") (pos 1) stored).0 ≡ pos 1
unfolding running
starts_again = refl

counted-increment_example :
    ((increment 30 (codes "hits") (pos 1) stored).0
      ≡ wrap_int64 (counted 30 (codes "hits") stored +ℤ pos 1))
    × (counted 30 (codes "hits") (increment 30 (codes "hits") (pos 1) stored).1
        ≡ wrap_int64 (counted 30 (codes "hits") stored +ℤ pos 1))
counted-increment_example = counted-increment 30 (codes "hits") (pos 1) stored (omega arith)

get_delete_once_example :
    ((get_delete 30 (codes "hits") stored).0 ≡ get 30 (codes "hits") stored)
    × (get 31 (codes "hits") (get_delete 30 (codes "hits") stored).1
        ≡ (if same (codes "hits") (codes "hits") then none else get 31 (codes "hits") stored))
get_delete_once_example = get_delete_once 30 31 (codes "hits") (codes "hits") stored

get-set_example :
    get 35 (codes "k") (set 30 (codes "k") (codes "v") (pos 5) stored) ≡ some (codes "v")
unfolding same
get-set_example = get-set 30 35 (codes "k") (codes "k") (codes "v") (pos 5) stored

-- An item that has expired is brought back.
expired_revives : get 55 (codes "hits") (expire 50 (codes "hits") (pos 5) stored) ≡ some (codes "9")
unfolding same lookup
expired_revives = get-expire 50 55 4 (codes "hits") (codes "hits") stored (omega arith)
