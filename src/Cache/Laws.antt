-- ===== src/Cache/Laws.antt =====
-- What a client of the cache sees: every operation by what `get` returns of every key afterwards.
use go_project_starter.Base.{
  ℕ, suc, ◌+◌, ◌≤◌, ◌≡◌, refl, ◌≢◌, Option, none, some, arith, leb, if◌then◌else◌, ℤ, pos, positive,
  ◌+ℤ◌, Option-cases, inl, inr,
}
use go_project_starter.Base.Texts.{Text, same, same_iff, same_refl}
use go_project_starter.Base.Assoc.{lookup, lookup-put, lookup-without}
use go_project_starter.Base.Decimal.{
  parse_int, format_int, wrap_int64, IsInt64, parse_int-format_int, parse_int-IsInt64,
  wrap_int64-IsInt64,
}
use go_project_starter.Cache.{
  MemItem, Memory, is_live, live_item, get, set, delete, get_delete, item_or_empty, number_of,
  increment, expire,
}

-- What was set is read until `ttl` after, by every key, and forever where the ttl is not positive.
pub get-set :
    (now later : ℕ) (k j v : Text) (ttl : ℤ) (m : Memory)
    → get later j (set now k v ttl m) ≡ (
        if same k j
        then elim (positive ttl) [
          | none ↦ some v
          | some n ↦ if leb later (now + n) then some v else none
        ]
        else get later j m)
unfolding get set is_live
get-set now later k j v ttl m = simp lookup-put (ground arith)

pub get-delete :
    (later : ℕ) (k j : Text) (m : Memory)
    → get later j (delete k m) ≡ (if same k j then none else get later j m)
unfolding get delete
get-delete later k j m = simp lookup-without (ground arith)

-- A value is redeemed once: `get_delete` returns what `get` would, and leaves the key empty
-- at every time, and other keys as they were.
pub get_delete_once :
    (now later : ℕ) (k j : Text) (m : Memory)
    → ((get_delete now k m).0 ≡ get now k m)
      × (get later j (get_delete now k m).1 ≡ (if same k j then none else get later j m))
unfolding get get_delete
get_delete_once now later k j m = (refl, simp lookup-without (ground arith))

-- A positive ttl is given to whatever item is stored, one that has expired too.
pub get-expire :
    (now later n : ℕ) (k j : Text) (m : Memory)
    → now ≤ later
    → get later j (expire now k (pos (suc n)) m) ≡ (
        if same k j
        then elim (lookup k m) [
          | none ↦ none
          | some item ↦ if leb later (now + suc n) then some item.value else none
        ]
        else get later j m)
unfolding get expire is_live
get-expire now later n k j m h = elim (Option-cases (lookup k m)) [
  | inl e ↦ ground (arith, same_iff k j)
  | inr (item, e) ↦
      let extended : MemItem = record item { expires_at = some (now + suc n) } in
      ground (arith, lookup-put k j extended m)
]

-- The number that a key counts: 0 where the key is missing, expired or no number.
unfoldable pub counted : ℕ → Text → Memory → ℤ
counted now k m = number_of (item_or_empty (live_item now (lookup k m)))

pub number_of-IsInt64 : (item : MemItem) → IsInt64 (number_of item)
unfolding number_of
number_of-IsInt64 item = elim (Option-cases (parse_int item.value)) [
  | inl e ↦ rw (e, number_of) (omega arith)
  | inr (z, e) ↦ rw (e, number_of) (parse_int-IsInt64 item.value z e)
]

live_again :
    (now : ℕ) (o : Option MemItem) (v : Text)
    → live_item now (some (record (item_or_empty (live_item now o)) { value = v }))
      ≡ some (record (item_or_empty (live_item now o)) { value = v })
unfolding live_item item_or_empty is_live
live_again now none v = refl
live_again now (some item) v = ground arith

pub number_of_formatted :
    (item : MemItem) (z : ℤ) → IsInt64 z → number_of (record item { value = format_int z }) ≡ z
unfolding number_of
number_of_formatted item z h = rw (parse_int-format_int z h, number_of)

-- `increment` returns the wrapped sum of the number that the key counted and of `delta`, and that
-- sum is what the key counts afterwards.
pub counted-increment :
    (now : ℕ) (k : Text) (delta : ℤ) (m : Memory)
    → IsInt64 delta
    → ((increment now k delta m).0 ≡ wrap_int64 (counted now k m +ℤ delta))
      × (counted now k (increment now k delta m).1 ≡ wrap_int64 (counted now k m +ℤ delta))
unfolding counted increment
counted-increment now k delta m h =
    let item = item_or_empty (live_item now (lookup k m)) in
    let sum = wrap_int64 (number_of item +ℤ delta) in
    let fits : IsInt64 sum = wrap_int64-IsInt64 (number_of item) delta (number_of-IsInt64 item) h in
    (
      refl,
      simp (lookup-put, same_refl)
          (rw (live_again now (lookup k m) (format_int sum))
            (unfold item_or_empty in number_of_formatted item sum fits)),
    )

-- An increment changes no other key.
pub get-increment_ne :
    (now later : ℕ) (k j : Text) (delta : ℤ) (m : Memory)
    → k ≢ j
    → get later j (increment now k delta m).1 ≡ get later j m
unfolding get increment
get-increment_ne now later k j delta m h = simp lookup-put (ground (arith, same_iff k j))
