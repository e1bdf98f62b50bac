-- ===== src/Upstream/Trail.antt =====
-- What a slice that was fetched consists of.
use openai_free_credit_track.Base.{
  ℕ, zero, suc, ◌≡◌, inl, inr, refl, sym, ◌∙◌, subst, false, Option, some, none, List, [], ◌∷◌,
  ◌++◌, append_assoc, leb, Bool-cases, Option-cases, All, All-append,
}
use openai_free_credit_track.Base.Text.{Text}
use openai_free_credit_track.Upstream.{UsageBucketRecord, Result, done, failed, page}
use openai_free_credit_track.Upstream.Parsing.{parse_usage_buckets}
use openai_free_credit_track.Upstream.Fetching.{
  Fetched, fetched, Client, is_seen, fetch_page, turn, fetch_pages, fetch_usage_slice,
}
use openai_free_credit_track.Upstream.Within.{
  Holds, and_then-Holds, and_then_any, IsWithin, parse_usage_buckets-IsWithin,
}

module _ (hexdigest : Text → Text) (client : Client) (from until : ℕ) where
  -- The pages from a call with a cursor to the page that names no next one: each is asked for with the
  -- cursor of the page before, which was not named earlier. `rs` are the records of all in order.
  pub data Trail : List Text → ℕ → Option Text → List UsageBucketRecord → ℕ → Type 0 where
    last :
        {seen : List Text} {n : ℕ} {cursor : Option Text} {rs : List UsageBucketRecord}
        → fetch_page hexdigest client from until n cursor ≡ done (rs, none)
        → Trail seen n cursor rs (suc n)
    next :
        {seen : List Text} {n total : ℕ} {cursor : Option Text} {c : Text}
        {rs more : List UsageBucketRecord}
        → fetch_page hexdigest client from until n cursor ≡ done (rs, some c)
        → is_seen c seen ≡ false
        → Trail (c ∷ seen) (suc n) (some c) more total
        → Trail seen n cursor (rs ++ more) total

  fetch_page-IsWithin :
      (n : ℕ) (cursor : Option Text)
      → Holds (λ x. All (IsWithin from until) x.0) (fetch_page hexdigest client from until n cursor)
  unfolding fetch_page
  fetch_page-IsWithin n cursor = elim (Option-cases (client n cursor)) [
    | inl e ↦ rw (e, fetch_page) tt
    | inr (payload, e) ↦
        rw (e, fetch_page)
          (and_then_any P (page payload) _ (λ (buckets, following).
            and_then-Holds (All (IsWithin from until)) P
              (parse_usage_buckets hexdigest from until buckets) _
              (parse_usage_buckets-IsWithin hexdigest from until buckets) (λ rs h. h)))
  ]
    where
      P : List UsageBucketRecord × Option Text → Type 0
      P x = All (IsWithin from until) x.0

  page-IsWithin :
      (n : ℕ) (cursor c : Option Text) (rs : List UsageBucketRecord)
      → fetch_page hexdigest client from until n cursor ≡ done (rs, c)
      → All (IsWithin from until) rs
  page-IsWithin n cursor c rs h =
      subst (Holds (λ x. All (IsWithin from until) x.0)) h (fetch_page-IsWithin n cursor)

  Trail-IsWithin :
      (seen : List Text) (n total : ℕ) (cursor : Option Text) (rs : List UsageBucketRecord)
      → Trail seen n cursor rs total
      → All (IsWithin from until) rs
  Trail-IsWithin seen n total cursor rs (last e) = page-IsWithin n cursor none rs e
  Trail-IsWithin seen n total cursor rs (next {c = c} {rs = front} {more = more} e f t) =
      All-append (IsWithin from until) front more (page-IsWithin n cursor (some c) front e)
        (Trail-IsWithin (c ∷ seen) (suc n) total (some c) more t)

  abbrev Continues :
      List Text → ℕ → Option Text → List UsageBucketRecord → List UsageBucketRecord → ℕ → Type 0
  Continues seen n cursor records all total =
      (more : List UsageBucketRecord) × (all ≡ records ++ more) × Trail seen n cursor more total

  turn-Continues :
      (seen : List Text) (n : ℕ) (cursor : Option Text) (records all : List UsageBucketRecord)
      (total : ℕ) (again : Text → List UsageBucketRecord → Fetched)
      → ((c : Text) (start : List UsageBucketRecord)
          → again c start ≡ fetched all total
          → Continues (c ∷ seen) (suc n) (some c) start all total)
      → (r : Result (List UsageBucketRecord × Option Text))
      → fetch_page hexdigest client from until n cursor ≡ r
      → turn hexdigest client from until seen records n again r ≡ fetched all total
      → Continues seen n cursor records all total
  turn-Continues seen n cursor records all total again k (failed e) h g = absurd cc
  turn-Continues seen n cursor records all total again k (done (rs, none)) h g =
      let same : all ≡ records ++ rs = cc in
      let pages : suc n ≡ total = cc in (rs, same, subst (Trail seen n cursor rs) pages (last h))
  turn-Continues seen n cursor records all total again k (done (rs, some c)) h g =
      elim (Bool-cases (is_seen c seen)) [
        | inl old ↦ absurd (let bad = rw old at g in cc)
        | inr new ↦
            let (more, e, t) = k c (records ++ rs) (rw new at g) in
            (rs ++ more, e ∙ append_assoc records rs more, next h new t)
      ]

  fetch_pages-Continues :
      (fuel : ℕ) (seen : List Text) (n : ℕ) (cursor : Option Text)
      (records all : List UsageBucketRecord) (total : ℕ)
      → fetch_pages hexdigest client from until fuel cursor seen records n ≡ fetched all total
      → Continues seen n cursor records all total
  unfolding fetch_pages
  fetch_pages-Continues zero seen n cursor records all total h = absurd cc
  fetch_pages-Continues (suc fuel) seen n cursor records all total h =
      turn-Continues seen n cursor records all total _
        (λ c start. fetch_pages-Continues fuel (c ∷ seen) (suc n) (some c) start all total)
        (fetch_page hexdigest client from until n cursor) refl h

  -- A slice that was fetched holds the records of a trail of pages in their order, from the call
  -- without a cursor to the page that names no next one, the pages are counted, no cursor is followed
  -- twice, and the bucket of every record lies in the range asked for, is not empty and has no more
  -- cached input than input.
  pub fetch_usage_slice-Trail :
      (fuel : ℕ) (rs : List UsageBucketRecord) (total : ℕ)
      → fetch_usage_slice hexdigest client from until fuel ≡ fetched rs total
      → Trail [] 0 none rs total × All (IsWithin from until) rs
  unfolding fetch_usage_slice
  fetch_usage_slice-Trail fuel rs total h = elim (Bool-cases (leb until from)) [
    | inl bad ↦ absurd (let no_range = rw bad at h in cc)
    | inr good ↦
        let (more, e, t) = fetch_pages-Continues fuel [] 0 none [] rs total (rw good at h) in
        let trail = subst (λ x. Trail [] 0 none x total) (sym e) t in
        (trail, Trail-IsWithin [] 0 total none rs trail)
  ]
