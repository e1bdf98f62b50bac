-- ===== src/History/Runs/Consistent.antt =====
-- What holds of the stored runs after any operations: the sums of the pages, and the coverage of
-- the runs that are completed.
use openai_free_credit_track.Base.{
  ℕ, ◌<◌, ◌≡◌, inl, inr, refl, sym, Bool, true, false, Option, some, none, List, [], ◌∷◌, ◌++◌,
  arith, ◌&&◌, ◌||◌, not, if◌then◌else◌, Bool-cases, subst,
}
use openai_free_credit_track.Base.Text.{Text}
use openai_free_credit_track.History.Ranges.{is_range}
use openai_free_credit_track.History.Coverage.{IsCovered, interval_is_covered_iff}
use openai_free_credit_track.History.Runs.{
  CollectionRun, CollectionSlice, RunStatus, Store, Fault, Result, done, refused, is_running,
  is_completed, is_cancelled, value_error, key_error, integrity_error, get_collection_run,
  update_run, slices_of, upsert_slice, sum_pages, completed_intervals, write_slice,
  start_collection_run, slice_fault, record_slice_checkpoint, complete_slice, has_complete_coverage,
  finish_collection_run, resume_collection_run,
}
use openai_free_credit_track.History.Runs.Rows.{
  is_key-cases, option_map, KeepsKey, get-update_self, get-update_other, get-append,
  slices_of-upsert_other,
}

-- A run, or none, and the slices under its key.
abbrev pub Fits : Option CollectionRun → List CollectionSlice → Type 0
Fits none slices = slices ≡ []
Fits (some run) slices =
    (run.requested_start < run.requested_end)
    × (run.pages_fetched ≡ sum_pages slices)
    × (is_completed run.status ≡ true → has_complete_coverage run slices ≡ true)

abbrev pub IsConsistent : Store → Type 0
IsConsistent d = (p r : Text) → Fits (get_collection_run p r d.runs) (slices_of p r d.slices)

-- An update of the run under one key is right if it is right there.
update-IsConsistent :
    (p r : Text) (f : CollectionRun → CollectionRun) (d : Store)
    → KeepsKey f
    → Fits (option_map f (get_collection_run p r d.runs)) (slices_of p r d.slices)
    → IsConsistent d
    → IsConsistent (record d { runs = update_run p r f d.runs })
update-IsConsistent p r f d keeps fits h q t = elim (is_key-cases p r q t) [
  | inl (e, g) ↦ rw (sym e) (rw (sym g) (rw (get-update_self p r f d.runs keeps) fits))
  | inr other ↦ rw (get-update_other p r q t f d.runs keeps other) (h q t)
]

not_completed : (s : RunStatus) → is_running s ≡ true → is_completed s ≡ false
unfolding is_running is_completed
not_completed RunStatus.running h = refl
not_completed RunStatus.completed h = ground arith
not_completed RunStatus.partial h = refl
not_completed RunStatus.failed h = refl
not_completed RunStatus.cancelled h = refl

Fits-pages :
    (run : CollectionRun) (old new : List CollectionSlice)
    → is_running run.status ≡ true
    → Fits (some run) old
    → Fits (some (record run { pages_fetched = sum_pages new })) new
Fits-pages run old new active (ordered, pages, covered) =
    (ordered, refl, λ c. absurd (let no = not_completed run.status active in ground arith))

write_slice-IsConsistent :
    (s : CollectionSlice) (d : Store) (run : CollectionRun)
    → get_collection_run s.profile_id s.run_id d.runs ≡ some run
    → is_running run.status ≡ true
    → IsConsistent d
    → IsConsistent (write_slice s d)
unfolding write_slice
write_slice-IsConsistent s d run e active h q t =
    let p = s.profile_id in
    let r = s.run_id in
    let pages = sum_pages (slices_of p r (upsert_slice s d.slices)) in
    let f = λ (x : CollectionRun). record x { pages_fetched = pages } in
    elim (is_key-cases p r q t) [
      | inl (a, b) ↦ rw (sym a) (
          rw (sym b) (
            rw (get-update_self p r f d.runs (λ x. (refl, refl)))
              (rw e (Fits-pages run (slices_of p r d.slices) _ active (rw e at (h p r))))))
      | inr other ↦
          rw (get-update_other p r q t f d.runs (λ x. (refl, refl)) other)
            (rw (slices_of-upsert_other q t s d.slices other) (h q t))
    ]

-- What `slice_fault` lets through.
slice_fault-none :
    (o : Option CollectionRun) (a b : ℕ)
    → slice_fault o a b ≡ none
    → (run : CollectionRun) × (o ≡ some run) × (is_running run.status ≡ true)
unfolding slice_fault
slice_fault-none none a b h = absurd (ground arith)
slice_fault-none (some run) a b h = elim (Bool-cases (is_running run.status)) [
  | inl active ↦ (run, refl, active)
  | inr not_active ↦ absurd (ground arith)
]

-- A write of a slice that the check lets through.
guarded_write :
    (s : CollectionSlice) (d e : Store) (o : Option CollectionRun) (fault : Option Fault)
    → get_collection_run s.profile_id s.run_id d.runs ≡ o
    → slice_fault o s.slice_start s.slice_end ≡ fault
    → elim fault [ some f ↦ refused f | none ↦ done (write_slice s d) ] ≡ done e
    → IsConsistent d
    → IsConsistent e
guarded_write s d e o (some f) found kept h c = absurd cc
guarded_write s d e o none found kept h c =
    let (run, is_run, active) = slice_fault-none o s.slice_start s.slice_end kept in
    let made : write_slice s d ≡ e = cc in
    let here : get_collection_run s.profile_id s.run_id d.runs ≡ some run = cc in
    subst IsConsistent made (write_slice-IsConsistent s d run here active c)

pub done_if :
    (b : Bool) (f : Fault) (r : Result Store) (e : Store)
    → (if b then refused f else r) ≡ done e
    → (b ≡ false) × (r ≡ done e)
done_if true f r e h = absurd cc
done_if false f r e h = (refl, h)

record_slice_checkpoint-IsConsistent :
    (s : CollectionSlice) (d e : Store)
    → record_slice_checkpoint s d ≡ done e
    → IsConsistent d
    → IsConsistent e
unfolding record_slice_checkpoint
record_slice_checkpoint-IsConsistent s d e h c =
    let (valid, rest) = done_if _ _ _ e h in guarded_write s d e _ _ refl refl rest c

complete_slice-IsConsistent :
    (p r : Text) (a b pages : ℕ) (now : Text) (d e : Store)
    → complete_slice p r a b pages now d ≡ done e
    → IsConsistent d
    → IsConsistent e
unfolding complete_slice
complete_slice-IsConsistent p r a b pages now d e h c =
    let (valid, rest) = done_if _ _ _ e h in guarded_write _ d e _ _ refl refl rest c

pub done_inj : {a b : Store} → done a ≡ done b → a ≡ b
done_inj h = cc

Fits-finished :
    (run : CollectionRun) (slices : List CollectionSlice) (status : RunStatus)
    (code at : Option Text)
    → (is_completed status ≡ true → has_complete_coverage run slices ≡ true)
    → Fits (some run) slices
    → Fits (some (record run { status = status; error_code = code; finished_at = at })) slices
unfolding has_complete_coverage
Fits-finished run slices status code at covered (ordered, pages, old) = (ordered, pages, covered)

pub finish_guard : (a b : Bool) → a && not b ≡ false → a ≡ true → b ≡ true
finish_guard true true h k = refl
finish_guard true false h k = absurd cc
finish_guard false b h k = absurd cc

finish_found :
    (p r : Text) (status : RunStatus) (code : Option Text) (at : Text) (d e : Store)
    (o : Option CollectionRun)
    → get_collection_run p r d.runs ≡ o
    → elim o [
      | none ↦ refused key_error
      | some run ↦
          if is_completed status && not (has_complete_coverage run (slices_of p r d.slices))
          then refused value_error
          else done (record d {
            runs =
                update_run p r
                  (λ x. record x { status = status; error_code = code; finished_at = some at })
                  d.runs;
          })
    ]
      ≡ done e
    → IsConsistent d
    → IsConsistent e
finish_found p r status code at d e none found h c = absurd cc
finish_found p r status code at d e (some run) found h c =
    let (guard, made) = done_if _ _ _ e h in
    let old = rw found at (c p r) in
    let covered = finish_guard (is_completed status) _ guard in
    subst IsConsistent (done_inj made) (
      update-IsConsistent p r
        (λ x. record x { status = status; error_code = code; finished_at = some at }) d
        (λ x. (refl, refl)) (rw found (Fits-finished run _ status code (some at) covered old)) c)

finish_collection_run-IsConsistent :
    (p r : Text) (status : RunStatus) (code : Option Text) (at : Text) (d e : Store)
    → finish_collection_run p r status code at d ≡ done e
    → IsConsistent d
    → IsConsistent e
unfolding finish_collection_run
finish_collection_run-IsConsistent p r status code at d e h c =
    let (valid, rest) = done_if _ _ _ e h in finish_found p r status code at d e _ refl rest c

never : {P : Type 0} → false ≡ true → P
never h = absurd cc

resume_found :
    (p r : Text) (d e : Store) (o : Option CollectionRun)
    → get_collection_run p r d.runs ≡ o
    → elim o [
      | none ↦ refused key_error
      | some run ↦
          if is_completed run.status || is_cancelled run.status
          then refused value_error
          else done (record d {
            runs =
                update_run p r
                  (λ x. record x {
                    status = RunStatus.running;
                    finished_at = none;
                    error_code = none;
                  })
                  d.runs;
          })
    ]
      ≡ done e
    → IsConsistent d
    → IsConsistent e
unfolding is_completed
resume_found p r d e none found h c = absurd cc
resume_found p r d e (some run) found h c =
    let (guard, made) = done_if _ _ _ e h in
    let old = rw found at (c p r) in
    subst IsConsistent (done_inj made) (
      update-IsConsistent p r
        (λ x. record x { status = RunStatus.running; finished_at = none; error_code = none }) d
        (λ x. (refl, refl)) (rw found (Fits-finished run _ RunStatus.running none none never old))
        c)

resume_collection_run-IsConsistent :
    (p r : Text) (d e : Store)
    → resume_collection_run p r d ≡ done e
    → IsConsistent d
    → IsConsistent e
unfolding resume_collection_run
resume_collection_run-IsConsistent p r d e h c =
    let (valid, rest) = done_if _ _ _ e h in resume_found p r d e _ refl rest c

abbrev fresh : ℕ → ℕ → Text → Text → Text → CollectionRun
fresh start end run_id started_at profile_id = record {
  profile_id = profile_id;
  run_id = run_id;
  requested_start = start;
  requested_end = end;
  started_at = started_at;
  finished_at = none;
  status = RunStatus.running;
  pages_fetched = 0;
  error_code = none;
}

append-Fits :
    (x : CollectionRun) (slices : List CollectionSlice) (o : Option CollectionRun) (mine : Bool)
    → x.requested_start < x.requested_end
    → x.pages_fetched ≡ 0
    → is_completed x.status ≡ false
    → Fits o slices
    → Fits (elim o [ some y ↦ some y | none ↦ if mine then some x else none ]) slices
append-Fits x slices (some y) mine ordered pages active fits = fits
append-Fits x slices none true ordered pages active fits = (ordered, rw fits pages, λ c. absurd cc)
append-Fits x slices none false ordered pages active fits = fits

start_found :
    (start end : ℕ) (run_id started_at profile_id : Text) (d e : Store) (o : Option CollectionRun)
    → start < end
    → elim o [
      | some run ↦ refused integrity_error
      | none ↦
          done (record d { runs = d.runs ++ (fresh start end run_id started_at profile_id ∷ []) })
    ]
      ≡ done e
    → IsConsistent d
    → IsConsistent e
unfolding is_completed
start_found start end run_id started_at profile_id d e (some run) ordered h c = absurd cc
start_found start end run_id started_at profile_id d e none ordered h c =
    let x = fresh start end run_id started_at profile_id in
    subst IsConsistent (done_inj h) (λ q t.
      rw (get-append q t x d.runs)
        (append-Fits x _ (get_collection_run q t d.runs) _ ordered refl refl (c q t)))

valid_start :
    (start end : ℕ) (a b c : Bool) → not (is_range start end && a && b && c) ≡ false → start < end
unfolding is_range
valid_start start end a b c h = ground arith

start_collection_run-IsConsistent :
    (start end : ℕ) (run_id started_at profile_id : Text) (d e : Store)
    → start_collection_run start end run_id started_at profile_id d ≡ done e
    → IsConsistent d
    → IsConsistent e
unfolding start_collection_run
start_collection_run-IsConsistent start end run_id started_at profile_id d e h c =
    let (valid, some_rest) = done_if _ _ _ e h in
    let (known, rest) = done_if _ _ _ e some_rest in
    start_found start end run_id started_at profile_id d e _ (valid_start start end _ _ _ valid)
      rest c

-- A call of one of the operations that write.
pub data Operation : Type 0 where
  start_run : ℕ → ℕ → Text → Text → Text → Operation
  checkpoint_slice : CollectionSlice → Operation
  reconcile : Text → Text → ℕ → ℕ → ℕ → Text → Operation
  finish_run : Text → Text → RunStatus → Option Text → Text → Operation
  resume_run : Text → Text → Operation

unfoldable pub call : Operation → Store → Result Store
call (start_run start end r at p) d = start_collection_run start end r at p d
call (checkpoint_slice s) d = record_slice_checkpoint s d
call (reconcile p r a b pages now) d = complete_slice p r a b pages now d
call (finish_run p r status code at) d = finish_collection_run p r status code at d
call (resume_run p r) d = resume_collection_run p r d

-- An error leaves the store as it was.
abbrev pub commit : Result Store → Store → Store
commit (done e) d = e
commit (refused f) d = d

unfoldable pub run_all : List Operation → Store → Store
unfolding call
run_all [] d = d
run_all (o ∷ os) d = run_all os (commit (call o d) d)

abbrev pub empty_store : List Text → Store
empty_store profiles = record { profiles = profiles; runs = []; slices = [] }

call-IsConsistent :
    (o : Operation) (d e : Store) → call o d ≡ done e → IsConsistent d → IsConsistent e
unfolding call
call-IsConsistent (start_run start end r at p) d e h c =
    start_collection_run-IsConsistent start end r at p d e h c
call-IsConsistent (checkpoint_slice s) d e h c = record_slice_checkpoint-IsConsistent s d e h c
call-IsConsistent (reconcile p r a b pages now) d e h c =
    complete_slice-IsConsistent p r a b pages now d e h c
call-IsConsistent (finish_run p r status code at) d e h c =
    finish_collection_run-IsConsistent p r status code at d e h c
call-IsConsistent (resume_run p r) d e h c = resume_collection_run-IsConsistent p r d e h c

commit-IsConsistent :
    (o : Operation) (d : Store) (a : Result Store)
    → call o d ≡ a
    → IsConsistent d
    → IsConsistent (commit a d)
commit-IsConsistent o d (done e) h c = call-IsConsistent o d e h c
commit-IsConsistent o d (refused f) h c = c

run_all-IsConsistent :
    (os : List Operation) (d : Store) → IsConsistent d → IsConsistent (run_all os d)
unfolding run_all
run_all-IsConsistent [] d c = c
run_all-IsConsistent (o ∷ os) d c = run_all-IsConsistent os _ (commit-IsConsistent o d _ refl c)

empty-IsConsistent : (profiles : List Text) → IsConsistent (empty_store profiles)
unfolding get_collection_run slices_of
empty-IsConsistent profiles p r = refl

-- In the store after any calls of the writing operations, from a store without runs, a run that is
-- found under its key has a range that is not empty, its page count is the sum of the page counts
-- of its slices, and if its status is completed then each instant of its range lies in one of its
-- slices whose status is completed.
pub run_found :
    (profiles : List Text) (os : List Operation) (p r : Text) (run : CollectionRun)
    → get_collection_run p r (run_all os (empty_store profiles)).runs ≡ some run
    → (run.requested_start < run.requested_end)
      × (run.pages_fetched ≡ sum_pages (slices_of p r (run_all os (empty_store profiles)).slices))
      × (is_completed run.status ≡ true
          → IsCovered run.requested_start run.requested_end
              (completed_intervals (slices_of p r (run_all os (empty_store profiles)).slices)))
unfolding has_complete_coverage
run_found profiles os p r run h =
    let all_fit = run_all-IsConsistent os (empty_store profiles) (empty-IsConsistent profiles) in
    let (ordered, pages, covered) = rw h at (all_fit p r) in
    (ordered, pages, λ c. (interval_is_covered_iff _ _ _ ordered).0 (covered c))

-- From such a store, a key with no run has no slices either.
pub run_missing :
    (profiles : List Text) (os : List Operation) (p r : Text)
    → get_collection_run p r (run_all os (empty_store profiles)).runs ≡ none
    → slices_of p r (run_all os (empty_store profiles)).slices ≡ []
run_missing profiles os p r h =
    rw h at (run_all-IsConsistent os (empty_store profiles) (empty-IsConsistent profiles) p r)
