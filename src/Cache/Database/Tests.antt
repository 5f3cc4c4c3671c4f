-- ===== src/Cache/Database/Tests.antt =====
-- The laws of the table's cache at concrete inputs.
use go_project_starter.Base.{◌+◌, ◌*◌, ◌-◌, none, some, [], ◌∷◌, ◌≡◌, pos, arith, if◌then◌else◌}
use go_project_starter.Base.Texts.{codes, same}
use go_project_starter.Cache.Database.{Rows, second, get, set, get_delete}
use go_project_starter.Cache.Database.Laws.{set_kept, set_lapsed, redeemed_once}

abbrev table : Rows
table = (codes "k", record { value = codes "v"; expiration = 9 }) ∷ []

set_kept_example :
    get (4 * second) (codes "k") (set (2 * second) (codes "k") (codes "v") (pos (4 * second)) [])
    ≡ some (codes "v")
set_kept_example =
    set_kept (2 * second) (4 * second) (4 * second - 1) (codes "k") (codes "v") [] (omega arith)

set_lapsed_example :
    get (7 * second) (codes "k") (set (2 * second) (codes "k") (codes "v") (pos (4 * second)) [])
    ≡ none
set_lapsed_example =
    set_lapsed (2 * second) (7 * second) (4 * second - 1) (codes "k") (codes "v") [] (omega arith)

redeemed_once_example :
    ((get_delete second (codes "k") table).0 ≡ get second (codes "k") table)
    × (get (second + 5) (codes "k") (get_delete second (codes "k") table).1
        ≡ (if same (codes "k") (codes "k") then none else get (second + 5) (codes "k") table))
redeemed_once_example = redeemed_once second 5 (codes "k") (codes "k") table
