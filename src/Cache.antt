-- ===== src/Cache.antt =====
-- internal/platform/cache/memory.go: the in-process cache driver. A method is a function of the
-- items, and of the clock where it reads it; the mutex makes each of them one atomic step.
-- `none` is `cache.ErrNotFound`.
pub mod Laws
pub mod Tests
pub mod Database
use go_project_starter.Base.{
  ℕ, ◌+◌, Bool, true, false, Option, none, some, List, [], ◌∷◌, leb, if◌then◌else◌, ℤ, pos,
  positive, ◌+ℤ◌, is_some,
}
use go_project_starter.Base.Texts.{Text}
use go_project_starter.Base.Assoc.{lookup, put, without}
use go_project_starter.Base.Decimal.{parse_int, format_int, wrap_int64}

pub record MemItem : Type 0 where
  pub value : Text
  pub expires_at : Option ℕ

-- The map from keys to items.
abbrev pub Memory : Type 0
Memory = List (Text × MemItem)

abbrev pub empty_item : MemItem
empty_item = record { value = []; expires_at = none }

-- Not `!expiresAt.IsZero() && time.Now().After(expiresAt)`.
unfoldable pub is_live : ℕ → MemItem → Bool
is_live now item = elim item.expires_at [ none ↦ true | some t ↦ leb now t ]

-- The item of a key, if it is there and has not expired.
unfoldable pub live_item : ℕ → Option MemItem → Option MemItem
unfolding is_live
live_item now none = none
live_item now (some item) = if is_live now item then some item else none

unfoldable pub value_of : Option MemItem → Option Text
value_of none = none
value_of (some item) = some item.value

unfoldable pub get : ℕ → Text → Memory → Option Text
unfolding live_item value_of
get now key m = value_of (live_item now (lookup key m))

-- A ttl that is not positive stores the value with no expiry.
unfoldable pub expiry : ℕ → ℤ → Option ℕ
expiry now ttl = elim (positive ttl) [ none ↦ none | some n ↦ some (now + n) ]

unfoldable pub set : ℕ → Text → Text → ℤ → Memory → Memory
unfolding expiry
set now key value ttl m = put key (record { value = value; expires_at = expiry now ttl }) m

unfoldable pub delete : Text → Memory → Memory
delete key m = without key m

-- Both branches delete the key.
unfoldable pub get_delete : ℕ → Text → Memory → Option Text × Memory
unfolding live_item value_of
get_delete now key m = (value_of (live_item now (lookup key m)), without key m)

-- A missing or expired item, and one that is no number, count as 0.
unfoldable pub item_or_empty : Option MemItem → MemItem
item_or_empty none = empty_item
item_or_empty (some item) = item

unfoldable pub number_of : MemItem → ℤ
number_of item = elim (parse_int item.value) [ none ↦ pos 0 | some n ↦ n ]

unfoldable pub increment : ℕ → Text → ℤ → Memory → ℤ × Memory
increment now key delta m =
    let item = item_or_empty (live_item now (lookup key m)) in
    let n = wrap_int64 (number_of item +ℤ delta) in
    (n, put key (record item { value = format_int n }) m)

-- A ttl that is not positive removes the key.
unfoldable pub expire : ℕ → Text → ℤ → Memory → Memory
expire now key ttl m = elim (positive ttl) [
  | none ↦ without key m
  | some n ↦ elim (lookup key m) [
    | none ↦ m
    | some item ↦ put key (record item { expires_at = some (now + n) }) m
  ]
]
