-- ===== src/Upstream/Fetching.antt =====
-- The loop over the pages in `fetch_usage_slice` of src/quota_monitor/upstream_adapter.py.
use openai_free_credit_track.Base.{
  ℕ, zero, suc, ◌+◌, ◌≤◌, ◌≡◌, ◌≢◌, inl, inr, refl, subst, Bool, false, Option, some, none, List,
  [], ◌∷◌, ◌++◌, leb, arith, if◌then◌else◌, any, length, In, Bool-cases,
}
use openai_free_credit_track.Base.Text.{Text, text_eq, text_eq_refl}
use openai_free_credit_track.Json.{Json}
use openai_free_credit_track.Upstream.{
  UsageBucketRecord, Fault, Result, done, failed, and_then, page, range_invalid, client_failed,
  usage_cursor_repeated,
}
use openai_free_credit_track.Upstream.Parsing.{parse_usage_buckets}

-- How the loop ends: with the records and the number of pages, with an error, or without fuel.
pub data Fetched : Type 0 where
  fetched : List UsageBucketRecord → ℕ → Fetched
  faulty : Fault → Fetched
  out_of_fuel : Fetched

-- The service: what the call of a number answers to a cursor, `none` when the client raises.
abbrev pub Client : Type 0
Client = ℕ → Option Text → Option Json

abbrev pub is_seen : Text → List Text → Bool
is_seen c seen = any (text_eq c) seen

module _ (hexdigest : Text → Text) (client : Client) (from until : ℕ) where
  -- The body of the loop: the records of a page and the next cursor.
  unfoldable pub fetch_page : ℕ → Option Text → Result (List UsageBucketRecord × Option Text)
  fetch_page pages cursor = elim (client pages cursor) [
    | none ↦ failed client_failed
    | some payload ↦ and_then (page payload) (λ (buckets, next).
        and_then (parse_usage_buckets hexdigest from until buckets) (λ rs. done (rs, next)))
  ]

  -- What the loop does with a page; `again` is the rest of the loop.
  abbrev pub turn :
      List Text
      → List UsageBucketRecord
      → ℕ
      → (Text → List UsageBucketRecord → Fetched)
      → Result (List UsageBucketRecord × Option Text)
      → Fetched
  turn seen records pages again (failed e) = faulty e
  turn seen records pages again (done (rs, none)) = fetched (records ++ rs) (suc pages)
  turn seen records pages again (done (rs, some c)) =
      if is_seen c seen then faulty usage_cursor_repeated else again c (records ++ rs)

  -- The loop, a turn for each unit of fuel.
  unfoldable pub fetch_pages : ℕ → Option Text → List Text → List UsageBucketRecord → ℕ → Fetched
  fetch_pages zero cursor seen records pages = out_of_fuel
  fetch_pages (suc fuel) cursor seen records pages =
      turn seen records pages (λ c all. fetch_pages fuel (some c) (c ∷ seen) all (suc pages))
        (fetch_page pages cursor)

  unfoldable pub fetch_usage_slice : ℕ → Fetched
  fetch_usage_slice fuel =
      if leb until from then faulty range_invalid else fetch_pages fuel none [] [] 0

  -- Every cursor that the service answers with is in the list.
  abbrev pub IsPool : List Text → Type 0
  IsPool pool =
      (pages : ℕ) (cursor : Option Text) (rs : List UsageBucketRecord) (c : Text)
      → fetch_page pages cursor ≡ done (rs, some c)
      → In c pool

-- How many of a list's texts are not seen.
abbrev unseen : List Text → List Text → ℕ
unseen seen [] = 0
unseen seen (c ∷ cs) = (if is_seen c seen then 0 else 1) + unseen seen cs

unseen_all : (pool : List Text) → unseen [] pool ≡ length pool
unseen_all [] = refl
unseen_all (c ∷ cs) = omega (arith, unseen_all cs)

unseen_fewer : (c : Text) (seen pool : List Text) → unseen (c ∷ seen) pool ≤ unseen seen pool
unseen_fewer c seen [] = omega arith
unseen_fewer c seen (d ∷ ds) = ground (arith, unseen_fewer c seen ds)

unseen_less :
    (c : Text) (seen pool : List Text)
    → is_seen c seen ≡ false
    → In c pool
    → suc (unseen (c ∷ seen) pool) ≤ unseen seen pool
unseen_less c seen [] h m = absurd m
unseen_less c seen (d ∷ ds) h (inl e) =
    let fewer = unseen_fewer c seen ds in
    let same = text_eq_refl c in
    subst (λ x. suc (unseen (c ∷ seen) (x ∷ ds)) ≤ unseen seen (x ∷ ds)) e
      (rw (same, h) (omega (arith, fewer)))
unseen_less c seen (d ∷ ds) h (inr m) = ground (arith, unseen_less c seen ds h m)

module _ (hexdigest : Text → Text) (client : Client) (from until : ℕ) (pool : List Text)
    (answers : IsPool hexdigest client from until pool) where
  turn_ends :
      (cursor : Option Text) (seen : List Text) (records : List UsageBucketRecord) (pages : ℕ)
      (again : Text → List UsageBucketRecord → Fetched)
      → ((c : Text) (all : List UsageBucketRecord)
          → is_seen c seen ≡ false
          → In c pool
          → again c all ≢ out_of_fuel)
      → (r : Result (List UsageBucketRecord × Option Text))
      → fetch_page hexdigest client from until pages cursor ≡ r
      → turn hexdigest client from until seen records pages again r ≢ out_of_fuel
  turn_ends cursor seen records pages again ends (failed x) k e = cc
  turn_ends cursor seen records pages again ends (done (rs, none)) k e = cc
  turn_ends cursor seen records pages again ends (done (rs, some c)) k e =
      elim (Bool-cases (is_seen c seen)) [
        | inl old ↦ let bad = rw old at e in cc
        | inr new ↦ ends c (records ++ rs) new (answers pages cursor rs c k) (rw new at e)
      ]

  fetch_pages_ends :
      (fuel : ℕ) (cursor : Option Text) (seen : List Text) (records : List UsageBucketRecord)
      (pages : ℕ)
      → suc (unseen seen pool) ≤ fuel
      → fetch_pages hexdigest client from until fuel cursor seen records pages ≢ out_of_fuel
  unfolding fetch_pages
  fetch_pages_ends zero cursor seen records pages h = absurd (omega arith)
  fetch_pages_ends (suc fuel) cursor seen records pages h =
      turn_ends cursor seen records pages _
        (λ c all new listed.
          fetch_pages_ends fuel (some c) (c ∷ seen) all (suc pages)
            (omega (arith, h, unseen_less c seen pool new listed)))
        (fetch_page hexdigest client from until pages cursor) refl

  -- If every cursor that the service answers with is one of a finite list, then fuel for one turn
  -- more than the list is long lets the loop end, with the records or an error, however the cursors
  -- are repeated.
  pub fetch_usage_slice_ends :
      fetch_usage_slice hexdigest client from until (suc (length pool)) ≢ out_of_fuel
  unfolding fetch_usage_slice
  fetch_usage_slice_ends e = elim (Bool-cases (leb until from)) [
    | inl bad ↦ let no_range = rw bad at e in cc
    | inr good ↦
        fetch_pages_ends (suc (length pool)) none [] [] 0 (omega (arith, unseen_all pool))
          (rw good at e)
  ]
