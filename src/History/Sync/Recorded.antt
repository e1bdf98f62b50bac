-- ===== src/History/Sync/Recorded.antt =====
-- What `sync` of src/quota_monitor/sync_service.py returns is what the database says.
use openai_free_credit_track.Base.{
  ℕ, suc, ◌≡◌, refl, Bool, true, false, Option, some, none, List, [], ◌∷◌, ◌&&◌, not, if◌then◌else◌,
  subst, length,
}
use openai_free_credit_track.Base.Text.{Text}
use openai_free_credit_track.History.Ranges.{Interval}
use openai_free_credit_track.History.Runs.{
  CollectionRun, CollectionSlice, RunStatus, Store, Fault, value_error, key_error, Result, done,
  refused, is_completed, get_collection_run, update_run, slices_of, has_complete_coverage,
  finish_collection_run,
}
use openai_free_credit_track.History.Runs.Rows.{option_map, get-update_self}
use openai_free_credit_track.History.Runs.Consistent.{done_if, done_inj, finish_guard}
use openai_free_credit_track.History.Reconcile.{Database}
use openai_free_credit_track.History.Sync.{
  Fetched, fetched, broken, Sync, Outcome, with_new_store, conclude, Watched, watch, pages_of,
  sync_failed, Round, stop, go_on, fail_slice, take_slice, sync_slice, sync_slices, count_completed,
  open_run, sync,
}

-- The run as it is stored agrees with a status, and covers its range if that is completed.
abbrev pub Agrees : Text → Text → RunStatus → Store → CollectionRun → Type 0
Agrees p r status d run =
    (run.status ≡ status)
    × (is_completed status ≡ true → has_complete_coverage run (slices_of p r d.slices) ≡ true)

some_inj : {A : Type 0} {a b : A} → some a ≡ some b → a ≡ b
some_inj h = cc

finished_run :
    (p r : Text) (status : RunStatus) (code at : Option Text) (d : Store) (old run : CollectionRun)
    → get_collection_run p r d.runs ≡ some old
    → (is_completed status ≡ true → has_complete_coverage old (slices_of p r d.slices) ≡ true)
    → get_collection_run p r (
        update_run p r
          (λ x. record x { status = status; error_code = code; finished_at = at })
          d.runs)
      ≡ some run
    → Agrees p r status d run
unfolding has_complete_coverage
finished_run p r status code at d old run found covered h =
    let f =
      λ (x : CollectionRun). record x { status = status; error_code = code; finished_at = at } in
    let updated = get-update_self p r f d.runs (λ x. (refl, refl)) in
    let there : option_map f (get_collection_run p r d.runs) ≡ some run = cc in
    let same : some (f old) ≡ some run = rw found at there in
    subst (Agrees p r status d) (some_inj same) (refl, covered)

finish_split :
    (p r : Text) (status : RunStatus) (code at : Option Text) (d e : Store)
    (o : Option CollectionRun) (run : CollectionRun)
    → get_collection_run p r d.runs ≡ o
    → elim o [
      | none ↦ refused key_error
      | some old ↦
          if is_completed status && not (has_complete_coverage old (slices_of p r d.slices))
          then refused value_error
          else done (record d {
            runs =
                update_run p r
                  (λ x. record x { status = status; error_code = code; finished_at = at })
                  d.runs;
          })
    ]
      ≡ done e
    → get_collection_run p r e.runs ≡ some run
    → Agrees p r status e run
finish_split p r status code at d e none run found h g = absurd cc
finish_split p r status code at d e (some old) run found h g =
    let (guard, made) = done_if _ _ _ e h in
    let same = done_inj made in
    subst (λ t. get_collection_run p r t.runs ≡ some run → Agrees p r status t run) same
      (finished_run p r status code at d old run found (finish_guard (is_completed status) _ guard))
      g

finish-Agrees :
    (p r : Text) (status : RunStatus) (code : Option Text) (at : Text) (d e : Store)
    (run : CollectionRun)
    → finish_collection_run p r status code at d ≡ done e
    → get_collection_run p r e.runs ≡ some run
    → Agrees p r status e run
unfolding finish_collection_run
finish-Agrees p r status code at d e run h g =
    let (valid, rest) = done_if _ _ _ e h in
    finish_split p r status code (some at) d e _ run refl rest g

-- The result, if there is one, is about a run that is stored with its status and page count.
abbrev pub IsRecorded : Text → Outcome → Type 0
IsRecorded p (d, refused f) = Unit
IsRecorded p (d, done result) =
    (run : CollectionRun) × (get_collection_run p result.run_id d.store.runs ≡ some run)
    × (run.pages_fetched ≡ result.pages_fetched)
    × Agrees p result.run_id result.status d.store run

conclude_found :
    (s : Sync) (status : RunStatus) (completed : ℕ) (code : Option Text) (d : Database)
    (store : Store) (o : Option CollectionRun)
    → finish_collection_run s.profile_id s.run_id status code s.now d.store ≡ done store
    → get_collection_run s.profile_id s.run_id store.runs ≡ o
    → IsRecorded s.profile_id (elim o [
      | none ↦ (with_new_store d store, refused key_error)
      | some run ↦ (
        with_new_store d store,
        done (record {
          run_id = s.run_id;
          requested_start = s.start;
          requested_end = s.end;
          status = status;
          completed_slices = completed;
          total_slices = s.total;
          pages_fetched = run.pages_fetched;
          error_code = code;
          resumed = s.resumed;
        }),
      )
    ])
conclude_found s status completed code d store none h g = tt
conclude_found s status completed code d store (some run) h g =
    (run, g, refl, finish-Agrees s.profile_id s.run_id status code s.now d.store store run h g)

conclude_finished :
    (s : Sync) (status : RunStatus) (completed : ℕ) (code : Option Text) (d : Database)
    (a : Result Store)
    → finish_collection_run s.profile_id s.run_id status code s.now d.store ≡ a
    → IsRecorded s.profile_id (elim a [
      | refused f ↦ (d, refused f)
      | done store ↦ elim (get_collection_run s.profile_id s.run_id store.runs) [
        | none ↦ (with_new_store d store, refused key_error)
        | some run ↦ (
          with_new_store d store,
          done (record {
            run_id = s.run_id;
            requested_start = s.start;
            requested_end = s.end;
            status = status;
            completed_slices = completed;
            total_slices = s.total;
            pages_fetched = run.pages_fetched;
            error_code = code;
            resumed = s.resumed;
          }),
        )
      ]
    ])
conclude_finished s status completed code d (refused f) h = tt
conclude_finished s status completed code d (done store) h =
    conclude_found s status completed code d store _ h refl

conclude-IsRecorded :
    (s : Sync) (status : RunStatus) (completed : ℕ) (code : Option Text) (d : Database)
    → IsRecorded s.profile_id (conclude s status completed code d)
unfolding conclude
conclude-IsRecorded s status completed code d = conclude_finished s status completed code d _ refl

fail_stored :
    (s : Sync) (status : RunStatus) (completed : ℕ) (code : Text) (d : Database) (a : Result Store)
    → IsRecorded s.profile_id (elim a [
      | refused f ↦ (d, refused f)
      | done store ↦ conclude s status completed (some code) (with_new_store d store)
    ])
fail_stored s status completed code d (refused f) = tt
fail_stored s status completed code d (done store) =
    conclude-IsRecorded s status completed (some code) _

fail_slice-IsRecorded :
    (s : Sync) (i : Interval) (w : Watched) (code : Text) (completed : ℕ) (d : Database)
    → IsRecorded s.profile_id (fail_slice s i w code completed d)
unfolding fail_slice
fail_slice-IsRecorded s i w code completed d = fail_stored s _ completed code d _

-- A round that ends the call ends it with a recorded result.
abbrev EndsRecorded : Text → Round → Type 0
EndsRecorded p (stop o) = IsRecorded p o
EndsRecorded p (go_on d) = Unit

reconciled_round :
    (s : Sync) (i : Interval) (w : Watched) (code : Text) (completed : ℕ) (d : Database)
    (a : Result Database)
    → EndsRecorded s.profile_id
        (elim a [ refused f ↦ stop (fail_slice s i w code completed d) | done e ↦ go_on e ])
reconciled_round s i w code completed d (refused f) = fail_slice-IsRecorded s i w code completed d
reconciled_round s i w code completed d (done e) = tt

take_slice-EndsRecorded :
    (s : Sync) (i : Interval) (w : Watched) (completed : ℕ) (d : Database) (r : Fetched)
    → EndsRecorded s.profile_id (take_slice s i w completed d r)
unfolding take_slice
take_slice-EndsRecorded s (a, b) w completed d (broken pages code) =
    fail_slice-IsRecorded s (a, b) w code completed d
take_slice-EndsRecorded s (a, b) w completed d (fetched pages buckets count) =
    reconciled_round s (a, b) w _ completed d _

watched_round :
    (s : Sync) (i : Interval) (w : Watched) (code : Text) (completed : ℕ) (d : Database)
    (r : Fetched) (o : Option Fault)
    → EndsRecorded s.profile_id (elim o [
      | some f ↦ stop (fail_slice s i w code completed d)
      | none ↦ take_slice s i w completed d r
    ])
watched_round s i w code completed d r (some f) = fail_slice-IsRecorded s i w code completed d
watched_round s i w code completed d r none = take_slice-EndsRecorded s i w completed d r

started_round :
    (s : Sync) (i : Interval) (completed : ℕ) (d : Database) (a : Result Store)
    → EndsRecorded s.profile_id (elim a [
      | refused f ↦ stop (d, refused f)
      | done store ↦
          let result = s.client i in
          let w =
            watch s i
              (pages_of result)
              (record { store = store; checkpoint = none; pages = 0; fault = none }) in
          elim w.fault [
            | some f ↦ stop (fail_slice s i w sync_failed completed (with_new_store d w.store))
            | none ↦ take_slice s i w completed (with_new_store d w.store) result
          ]
    ])
started_round s i completed d (refused f) = tt
started_round s i completed d (done store) =
    let w =
      watch s i (pages_of (s.client i))
        (record { store = store; checkpoint = none; pages = 0; fault = none }) in
    watched_round s i w sync_failed completed (with_new_store d w.store) (s.client i) w.fault

sync_slice-EndsRecorded :
    (s : Sync) (i : Interval) (completed : ℕ) (d : Database)
    → EndsRecorded s.profile_id (sync_slice s i completed d)
unfolding sync_slice
sync_slice-EndsRecorded s i completed d = started_round s i completed d _

next_round :
    (s : Sync) (prior : List CollectionSlice) (slices : List Interval) (completed : ℕ) (r : Round)
    → EndsRecorded s.profile_id r
    → ((n : ℕ) (d : Database) → IsRecorded s.profile_id (sync_slices s prior slices n d))
    → IsRecorded s.profile_id
        (elim r [ stop o ↦ o | go_on e ↦ sync_slices s prior slices (suc completed) e ])
next_round s prior slices completed (stop o) ends rest = ends
next_round s prior slices completed (go_on e) ends rest = rest (suc completed) e

one_slice :
    (s : Sync) (prior : List CollectionSlice) (i : Interval) (slices : List Interval)
    (completed : ℕ) (d : Database) (before : Bool)
    → ((n : ℕ) (e : Database) → IsRecorded s.profile_id (sync_slices s prior slices n e))
    → IsRecorded s.profile_id (elim before [
      | true ↦ sync_slices s prior slices completed d
      | false ↦ elim (sync_slice s i completed d) [
        | stop o ↦ o
        | go_on e ↦ sync_slices s prior slices (suc completed) e
      ]
    ])
one_slice s prior i slices completed d true rest = rest completed d
one_slice s prior i slices completed d false rest =
    next_round s prior slices completed _ (sync_slice-EndsRecorded s i completed d) rest

sync_slices-IsRecorded :
    (s : Sync) (prior : List CollectionSlice) (slices : List Interval) (completed : ℕ)
    (d : Database)
    → IsRecorded s.profile_id (sync_slices s prior slices completed d)
unfolding sync_slices
sync_slices-IsRecorded s prior [] completed d = conclude-IsRecorded s _ completed none d
sync_slices-IsRecorded s prior (i ∷ slices) completed d =
    one_slice s prior i slices completed d _ (λ n e. sync_slices-IsRecorded s prior slices n e)

opened :
    (p : Text) (start end : ℕ) (now : Text) (client : Interval → Fetched) (d : Database)
    (slices : List Interval) (a : Result (Text × Bool × Store))
    → IsRecorded p (elim a [
      | refused f ↦ (d, refused f)
      | done (run_id, resumed, store) ↦
          let prior = slices_of p run_id store.slices in
          sync_slices
            (record {
              profile_id = p;
              run_id = run_id;
              start = start;
              end = end;
              total = length slices;
              resumed = resumed;
              now = now;
              client = client;
            })
            prior
            slices
            (count_completed prior)
            (with_new_store d store)
    ])
opened p start end now client d slices (refused f) = tt
opened p start end now client d slices (done (run_id, resumed, store)) =
    sync_slices-IsRecorded _ (slices_of p run_id store.slices) slices _ _

sliced :
    (resume : Bool) (p new_id : Text) (start end : ℕ) (now : Text) (client : Interval → Fetched)
    (d : Database) (o : Option (List Interval))
    → IsRecorded p (elim o [
      | none ↦ (d, refused value_error)
      | some slices ↦ elim (open_run resume p new_id start end now d.store) [
        | refused f ↦ (d, refused f)
        | done (run_id, resumed, store) ↦
            let prior = slices_of p run_id store.slices in
            sync_slices
              (record {
                profile_id = p;
                run_id = run_id;
                start = start;
                end = end;
                total = length slices;
                resumed = resumed;
                now = now;
                client = client;
              })
              prior
              slices
              (count_completed prior)
              (with_new_store d store)
      ]
    ])
sliced resume p new_id start end now client d none = tt
sliced resume p new_id start end now client d (some slices) =
    opened p start end now client d slices (open_run resume p new_id start end now d.store)

-- Whatever the database holds and the client does, when `sync` returns a result, the run that it
-- names is stored with the result's status and number of pages; and if that status is completed then
-- `_interval_is_covered` accepts the run's range and those of its slices that are stored as
-- completed.
pub sync-IsRecorded :
    (resume : Bool) (p new_id : Text) (start end : ℕ) (now : Text) (client : Interval → Fetched)
    (d : Database)
    → IsRecorded p (sync resume p new_id start end now client d)
unfolding sync
sync-IsRecorded resume p new_id start end now client d =
    sliced resume p new_id start end now client d _
