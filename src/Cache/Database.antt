-- ===== src/Cache/Database.antt =====
-- internal/platform/cache/database.go: the cache in a table, on the clock in nanoseconds. Each
-- method is one transaction, of which no statement fails. `none` is `cache.ErrNotFound`.
pub mod Laws
pub mod Tests
use go_project_starter.Base.{
  ℕ, ◌+◌, ◌-◌, ◌/◌, Bool, true, false, ◌||◌, Option, none, some, List, [], ◌∷◌, ltb, ◌==◌,
  if◌then◌else◌, ℤ, pos, positive, ◌+ℤ◌,
}
use go_project_starter.Base.Texts.{Text, codes}
use go_project_starter.Base.Assoc.{lookup, put, without}
use go_project_starter.Base.Decimal.{parse_int, format_int, wrap_int64}

-- A row of the table cache; an expiration of 0 is none.
pub record CacheRow : Type 0 where
  pub value : Text
  pub expiration : ℕ

abbrev pub Rows : Type 0
Rows = List (Text × CacheRow)

abbrev pub second : ℕ
second = 1000000000

-- `time.Now().UTC().Unix()`.
abbrev pub seconds : ℕ → ℕ
seconds now = now / second

-- `ceilSeconds`, of a positive duration.
unfoldable pub ceil_seconds : ℕ → ℕ
ceil_seconds ttl = (ttl + second - 1) / second

-- WHERE … AND (expiration = 0 OR expiration > ?)
unfoldable pub is_current : ℕ → CacheRow → Bool
is_current now r = r.expiration == 0 || ltb (seconds now) r.expiration

unfoldable pub current_row : ℕ → Option CacheRow → Option CacheRow
unfolding is_current
current_row now none = none
current_row now (some r) = if is_current now r then some r else none

unfoldable pub row_value : Option CacheRow → Option Text
row_value none = none
row_value (some r) = some r.value

unfoldable pub get : ℕ → Text → Rows → Option Text
get now key m = row_value (current_row now (lookup key m))

unfoldable pub expiration_of : ℕ → ℤ → ℕ
unfolding ceil_seconds
expiration_of now ttl = elim (positive ttl) [ none ↦ 0 | some n ↦ seconds now + ceil_seconds n ]

-- The upsert of either dialect.
unfoldable pub set : ℕ → Text → Text → ℤ → Rows → Rows
unfolding expiration_of
set now key value ttl m = put key (record { value = value; expiration = expiration_of now ttl }) m

unfoldable pub delete : Text → Rows → Rows
delete key m = without key m

-- A row that has expired is not found, and stays.
unfoldable pub get_delete : ℕ → Text → Rows → Option Text × Rows
get_delete now key m = elim (current_row now (lookup key m)) [
  | none ↦ (none, m)
  | some r ↦ (some r.value, without key m)
]

-- INSERT … ON CONFLICT DO NOTHING
unfoldable pub seeded : Text → Rows → Rows
seeded key m = elim (lookup key m) [
  | none ↦ put key (record { value = codes "0"; expiration = 0 }) m
  | some r ↦ m
]

-- The number of the live row, and its expiration; `none` where the value is no number.
unfoldable pub read_number : Option CacheRow → Option (ℤ × ℕ)
read_number none = some (pos 0, 0)
read_number (some r) = elim (parse_int r.value) [ none ↦ none | some z ↦ some (z, r.expiration) ]

-- `none` is the error of a value that is no number, which rolls the transaction back.
unfoldable pub increment : ℕ → Text → ℤ → Rows → Option ℤ × Rows
unfolding seeded read_number
increment now key delta m =
    let m' = seeded key m in
    elim (read_number (current_row now (lookup key m'))) [
      | none ↦ (none, m)
      | some (z, expiration) ↦
          let n = wrap_int64 (z +ℤ delta) in
          (some n, put key (record { value = format_int n; expiration = expiration }) m')
    ]

unfoldable pub expire : ℕ → Text → ℤ → Rows → Rows
unfolding ceil_seconds
expire now key ttl m = elim (positive ttl) [
  | none ↦ without key m
  | some n ↦ elim (lookup key m) [
    | none ↦ m
    | some r ↦ put key (record r { expiration = seconds now + ceil_seconds n }) m
  ]
]
