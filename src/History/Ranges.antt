-- ===== src/History/Ranges.antt =====
-- `utc_day_slices` and the checks on ranges of sync_service.py and database.py.
use openai_free_credit_track.Base.{
  ℕ, zero, suc, ◌+◌, ◌-◌, ◌*◌, ◌/◌, ◌%◌, ◌≤◌, ◌<◌, ◌≡◌, inl, inr, refl, Bool, true, false, Option,
  some, none, subst, List, [], ◌∷◌, All, length, arith, min, ltb, leb, ◌&&◌, if◌then◌else◌,
  Bool-cases, lt→ltb, ltb→lt,
}

abbrev pub seconds_per_day : ℕ
seconds_per_day = 86400

abbrev pub max_sync_days : ℕ
max_sync_days = 366

-- A pair of instants: from the first, up to and without the second.
abbrev pub Interval : Type 0
Interval = ℕ × ℕ

-- `_validate_sync_range`; a natural number is an `int` that is not negative.
unfoldable pub is_sync_range : ℕ → ℕ → Bool
is_sync_range start end = ltb start end && leb (end - start) (max_sync_days * seconds_per_day)

-- `_validate_range` of database.py
unfoldable pub is_range : ℕ → ℕ → Bool
is_range start end = ltb start end

-- `_validate_days`
unfoldable pub is_days : ℕ → ℕ → Bool
is_days days maximum = leb 1 days && leb days maximum

-- `default_sync_range` at the Unix seconds of `now`: `none` is the `ValueError`. A start before the
-- epoch is 0 here, where the source has a negative number.
unfoldable pub default_sync_range : ℕ → ℕ → Option Interval
unfolding is_days
default_sync_range now days =
    let end = now - now % seconds_per_day in
    if is_days days max_sync_days then some (end - days * seconds_per_day, end) else none

abbrev slice_end_of : ℕ → ℕ → ℕ
slice_end_of cursor end = min (cursor - cursor % seconds_per_day + seconds_per_day) end

-- The loop of `utc_day_slices`. A round moves the cursor by a second at least.
unfoldable pub slices_from : ℕ → ℕ → ℕ → List Interval
slices_from zero cursor end = []
slices_from (suc fuel) cursor end =
    let slice_end = slice_end_of cursor end in
    let rest = slices_from fuel slice_end end in
    if ltb cursor end then (cursor, slice_end) ∷ rest else []

unfoldable pub utc_day_slices : ℕ → ℕ → Option (List Interval)
unfolding slices_from is_sync_range
utc_day_slices start end =
    if is_sync_range start end then some (slices_from (end - start) start end) else none

-- The intervals follow one another without a gap, from `start` to `end`, and none is empty.
abbrev pub Tiles : ℕ → ℕ → List Interval → Type 0
Tiles start end [] = start ≡ end
Tiles start end ((a, b) ∷ rest) = (a ≡ start) × (a < b) × Tiles b end rest

-- The interval lies within one UTC day.
abbrev pub IsInDay : Interval → Type 0
IsInDay (a, b) = (b - 1) / seconds_per_day ≡ a / seconds_per_day

slice_end_bounds :
    (cursor end : ℕ)
    → cursor < end
    → (cursor < slice_end_of cursor end)
      × (slice_end_of cursor end ≤ end)
      × IsInDay (cursor, slice_end_of cursor end)
slice_end_bounds cursor end h = (omega arith, omega arith, omega arith)

-- How many UTC days the range touches.
unfoldable pub days_touched : ℕ → ℕ → ℕ
days_touched start end =
    if ltb start end then (end + 86399) / seconds_per_day - start / seconds_per_day else 0

days_touched-more :
    (start end : ℕ)
    → start < end
    → days_touched start end ≡ (end + 86399) / seconds_per_day - start / seconds_per_day
unfolding days_touched
days_touched-more start end h = rw (lt→ltb start end h) refl

days_touched-none : (start end : ℕ) → ltb start end ≡ false → days_touched start end ≡ 0
unfolding days_touched
days_touched-none start end h = rw h refl

count_last :
    (cursor end n : ℕ)
    → cursor < end
    → ltb (slice_end_of cursor end) end ≡ false
    → n ≤ days_touched (slice_end_of cursor end) end
    → suc n ≤ (end + 86399) / seconds_per_day - cursor / seconds_per_day
count_last cursor end n h last k =
    let bound = rw (days_touched-none (slice_end_of cursor end) end last) at k in
    omega (arith, bound)

count_step :
    (cursor end n : ℕ)
    → cursor < end
    → n ≤ days_touched (slice_end_of cursor end) end
    → suc n ≤ days_touched cursor end
count_step cursor end n h k = elim (Bool-cases (ltb (slice_end_of cursor end) end)) [
  | inl more ↦
      let bound = rw (days_touched-more (slice_end_of cursor end) end (ltb→lt _ _ more)) at k in
      rw (days_touched-more cursor end h)
        (let inside = ltb→lt _ _ more in omega (arith, inside, bound))
  | inr last ↦ rw (days_touched-more cursor end h) (count_last cursor end n h last k)
]

-- The slices that are left are at most the days that are touched.
slices_from_lem :
    (fuel cursor end : ℕ)
    → cursor ≤ end
    → end - cursor ≤ fuel
    → Tiles cursor end (slices_from fuel cursor end)
      × All IsInDay (slices_from fuel cursor end)
      × (length (slices_from fuel cursor end) ≤ days_touched cursor end)
unfolding slices_from
slices_from_lem zero cursor end h f = (omega arith, tt, ground arith)
slices_from_lem (suc fuel) cursor end h f = elim (Bool-cases (ltb cursor end)) [
  | inl more ↦
      let (after, bounded, day) = slice_end_bounds cursor end (ground arith) in
      let (tiles, days, count) =
        slices_from_lem fuel (slice_end_of cursor end) end bounded (omega arith) in
      rw more ((refl, after, tiles), (day, days), count_step cursor end _ (ground arith) count)
  | inr done ↦ rw done (ground arith, tt, ground arith)
]

sync_range :
    (start end : ℕ) → is_sync_range start end ≡ true → (start < end) × (end - start ≤ 31622400)
unfolding is_sync_range
sync_range start end h = (ground arith, ground arith)

days_bound : (start end : ℕ) → start < end → end - start ≤ 31622400 → days_touched start end ≤ 367
days_bound start end h k = rw (days_touched-more start end h) (omega arith)

-- The slices of an accepted range cover it from start to end without gap or overlap, none is empty,
-- each lies within one UTC day, and there is one for each day that the range touches at most, so
-- that there are no more than 367.
pub utc_day_slices_lem :
    (start end : ℕ) (slices : List Interval)
    → utc_day_slices start end ≡ some slices
    → Tiles start end slices
      × All IsInDay slices
      × (length slices ≤ days_touched start end)
      × (days_touched start end ≤ 367)
unfolding utc_day_slices
utc_day_slices_lem start end slices h =
    let valid : is_sync_range start end ≡ true = ground arith in
    let made : slices_from (end - start) start end ≡ slices = ground arith in
    let (ordered, small) = sync_range start end valid in
    let (tiles, days, count) =
      slices_from_lem (end - start) start end (omega arith) (omega arith) in
    subst
      (λ (l : List Interval).
        Tiles start end l
        × All IsInDay l
        × (length l ≤ days_touched start end)
        × (days_touched start end ≤ 367))
      made (tiles, days, count, days_bound start end ordered small)

-- The default range of an accepted number of days, unless it would start before the epoch, is that
-- many whole days, ends at the last midnight that is not after the present instant, and is accepted.
pub default_sync_range-accepted :
    (now days start end : ℕ)
    → default_sync_range now days ≡ some (start, end)
    → (days + 1) * seconds_per_day ≤ now
    → (start + days * seconds_per_day ≡ end)
      × (end % seconds_per_day ≡ 0)
      × (end ≤ now)
      × (now < end + seconds_per_day)
      × (is_sync_range start end ≡ true)
unfolding default_sync_range is_sync_range is_days
default_sync_range-accepted now days start end h late =
    let midnight : now - now % 86400 ≡ end = ground arith in
    let first : end - days * 86400 ≡ start = ground arith in
    let low : 1 ≤ days = ground arith in
    let high : days ≤ 366 = ground arith in
    (omega arith, omega arith, omega arith, omega arith, ground arith)
