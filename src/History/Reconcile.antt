-- ===== src/History/Reconcile.antt =====
-- `reconcile_slice` of src/quota_monitor/database.py as a whole, but for the table of projects: one
-- transaction on the usage rows, the slice and the run.
use openai_free_credit_track.Base.{
  ℕ, ◌≡◌, if◌then◌else◌, all, inl, inr, refl, true, false, Option, some, none, List, [], ◌∷◌, In,
  ◌&&◌, Bool-cases, subst, ap,
}
use openai_free_credit_track.Base.Text.{Text, text_eq}
use openai_free_credit_track.History.Ranges.{Interval}
use openai_free_credit_track.History.Runs.{
  CollectionSlice, Store, Fault, value_error, Result, done, refused, is_slice_completed, is_key,
  is_same_slice, slices_of, upsert_slice, completed_intervals, write_slice, complete_slice,
}
use openai_free_credit_track.History.Runs.Rows.{is_key_refl}
use openai_free_credit_track.History.Runs.Consistent.{done_if}
use openai_free_credit_track.History.Usage.{
  BucketKey, UsageBucket, UsageRow, is_inside, find_row, is_valid_bucket, reconcile_rows,
}
use openai_free_credit_track.History.Usage.Totals.{
  column, stored_total, reconcile_rows_lem, reconcile_rows-elsewhere,
}

pub record Database : Type 0 where
  pub store : Store
  pub rows : List UsageRow

abbrev with_rows : Store → Result (List UsageRow) → Result Database
with_rows store (refused f) = refused f
with_rows store (done rows) = done (record { store = store; rows = rows })

-- Of what the transaction does, the slice and the run come first here, since their checks do.
abbrev in_transaction :
    Text → ℕ → ℕ → List UsageBucket → List UsageRow → Result Store → Result Database
in_transaction p slice_start slice_end buckets rows (refused f) = refused f
in_transaction p slice_start slice_end buckets rows (done store) =
    with_rows store (reconcile_rows p slice_start slice_end buckets rows)

unfoldable pub reconcile_slice :
    Text → Text → ℕ → ℕ → List UsageBucket → ℕ → Text → Database → Result Database
reconcile_slice p r slice_start slice_end buckets pages now d =
    if all (is_valid_bucket slice_start slice_end) buckets
    then in_transaction p slice_start slice_end buckets d.rows
        (complete_slice p r slice_start slice_end pages now d.store)
    else refused value_error

keep-In :
    (x : CollectionSlice) (xs : List CollectionSlice) (i : Interval)
    → In i (completed_intervals xs)
    → In i (completed_intervals (x ∷ xs))
unfolding completed_intervals
keep-In x xs i h = elim (Bool-cases (is_slice_completed x.status)) [
  | inl counted ↦ rw counted (inr h)
  | inr skipped ↦ rw skipped h
]

keep_of :
    (p r : Text) (x : CollectionSlice) (xs : List CollectionSlice) (i : Interval)
    → In i (completed_intervals (slices_of p r xs))
    → In i (completed_intervals (slices_of p r (x ∷ xs)))
unfolding slices_of
keep_of p r x xs i h = elim (Bool-cases (is_key x.profile_id x.run_id p r)) [
  | inl mine ↦ rw mine (keep-In x (slices_of p r xs) i h)
  | inr other ↦ rw other h
]

first-In :
    (s : CollectionSlice) (xs : List CollectionSlice)
    → is_slice_completed s.status ≡ true
    → In
        (s.slice_start, s.slice_end)
        (completed_intervals (slices_of s.profile_id s.run_id (s ∷ xs)))
unfolding slices_of completed_intervals
first-In s xs h = rw (is_key_refl s.profile_id s.run_id) (rw h (inl refl))

upserted-In :
    (s : CollectionSlice) (xs : List CollectionSlice)
    → is_slice_completed s.status ≡ true
    → In
        (s.slice_start, s.slice_end)
        (completed_intervals (slices_of s.profile_id s.run_id (upsert_slice s xs)))
unfolding upsert_slice
upserted-In s [] h = first-In s [] h
upserted-In s (x ∷ xs) h = elim (Bool-cases (is_same_slice s x)) [
  | inl same ↦ rw same (first-In s xs h)
  | inr other ↦
      rw other (keep_of s.profile_id s.run_id x (upsert_slice s xs) _ (upserted-In s xs h))
]

write_slice-In :
    (s : CollectionSlice) (d e : Store) (fault : Option Fault)
    → is_slice_completed s.status ≡ true
    → elim fault [ some f ↦ refused f | none ↦ done (write_slice s d) ] ≡ done e
    → In
        (s.slice_start, s.slice_end)
        (completed_intervals (slices_of s.profile_id s.run_id e.slices))
unfolding write_slice
write_slice-In s d e (some f) h k = absurd cc
write_slice-In s d e none h k =
    let made : write_slice s d ≡ e = cc in
    subst
      (λ t.
        In (s.slice_start, s.slice_end)
          (completed_intervals (slices_of s.profile_id s.run_id t.slices)))
      made (upserted-In s d.slices h)

complete_slice-In :
    (p r : Text) (a b pages : ℕ) (now : Text) (d e : Store)
    → complete_slice p r a b pages now d ≡ done e
    → In (a, b) (completed_intervals (slices_of p r e.slices))
unfolding complete_slice is_slice_completed
complete_slice-In p r a b pages now d e h =
    let (valid, rest) = done_if _ _ _ e h in write_slice-In _ d e _ refl rest

with_rows-done :
    (store : Store) (a : Result (List UsageRow)) (e : Database)
    → with_rows store a ≡ done e
    → (store ≡ e.store) × (a ≡ done e.rows)
with_rows-done store (refused f) e h = absurd cc
with_rows-done store (done rows) e h =
    let made : record { store = store; rows = rows } ≡ e = cc in
    (ap (λ (t : Database). t.store) made, ap (λ (t : Database). done t.rows) made)

in_transaction-done :
    (p : Text) (a b : ℕ) (buckets : List UsageBucket) (rows : List UsageRow) (o : Result Store)
    (e : Database)
    → in_transaction p a b buckets rows o ≡ done e
    → (o ≡ done e.store) × (reconcile_rows p a b buckets rows ≡ done e.rows)
in_transaction-done p a b buckets rows (refused f) e h = absurd cc
in_transaction-done p a b buckets rows (done store) e h =
    let (kept, made) = with_rows-done store _ e h in (ap done kept, made)

-- When `reconcile_slice` returns, the slice is among the completed ones of its run; under each key
-- inside the slice the profile has no row if no given bucket has the key, and otherwise each of its
-- four amounts is the sum over the given buckets with the key, as long as the sum is below 2 ^ 63,
-- and a REAL from there on; and a row of another profile, or under a key not inside the slice, is as
-- before.
pub reconcile_slice-done :
    (p r : Text) (a b pages : ℕ) (buckets : List UsageBucket) (now : Text) (d e : Database)
    → reconcile_slice p r a b buckets pages now d ≡ done e
    → In (a, b) (completed_intervals (slices_of p r e.store.slices))
      × ((k : BucketKey)
          → is_inside a b k ≡ true
          → (column (λ x. x.input_tokens) (find_row p k e.rows)
              ≡ stored_total (λ x. x.input_tokens) k buckets)
            × (column (λ x. x.cached_input_tokens) (find_row p k e.rows)
                ≡ stored_total (λ x. x.cached_input_tokens) k buckets)
            × (column (λ x. x.output_tokens) (find_row p k e.rows)
                ≡ stored_total (λ x. x.output_tokens) k buckets)
            × (column (λ x. x.request_count) (find_row p k e.rows)
                ≡ stored_total (λ x. x.request_count) k buckets))
      × ((q : Text) (k : BucketKey)
          → text_eq p q && is_inside a b k ≡ false
          → find_row q k e.rows ≡ find_row q k d.rows)
unfolding reconcile_slice
reconcile_slice-done p r a b pages buckets now d e h =
    elim (Bool-cases (all (is_valid_bucket a b) buckets)) [
      | inr bad ↦ absurd (let no = rw bad at h in cc)
      | inl valid ↦
          let made = rw valid at h in
          let (store, rows) = in_transaction-done p a b buckets d.rows _ e made in
          (
            complete_slice-In p r a b pages now d.store e.store store,
            λ k i. reconcile_rows_lem p a b buckets d.rows e.rows k rows i,
            λ q k away. reconcile_rows-elsewhere p q a b buckets d.rows e.rows k valid rows away,
          )
    ]
