-- ===== src/Usage/Conserved.antt =====
-- Each row that is summarized is counted once.
use openai_free_credit_track.Base.{
  ℕ, ◌+◌, ◌≤◌, ◌≡◌, inl, inr, refl, sym, ap, ◌∙◌, subst, Bool, Option, some, none, List, [], ◌∷◌,
  ◌++◌, ◌&&◌, arith, Bool-cases, Option-cases, In, sum, sum-append,
}
use openai_free_credit_track.Base.Text.{Text, codes}
use openai_free_credit_track.Json.{Json, null, Items, no_items, item, get_or}
use openai_free_credit_track.Usage.{
  Catalog, Entry, Row, clean_model_name, find_model, is_incentivized,
}
use openai_free_credit_track.Usage.Rows.{
  Result, done, data_error, key_error, and_then, object_of, list_of, check_row,
}
use openai_free_credit_track.Usage.Safe.{
  Safe, Always, and_then-Safe, object_of-Safe, check_row-Safe,
}
use openai_free_credit_track.Usage.Summary.{Summary, group_of, priced, add_row, summarize_results}
use openai_free_credit_track.Usage.Lookup.{keys_of, find_model-In}
use openai_free_credit_track.Usage.Balance.{
  Column, value, amount, value-add_tokens, groups_sum, IsSplit, add_group-Added, total_column,
}

abbrev pub listed : {A : Type 0} → Result (List A) → List A
listed (done xs) = xs
listed data_error = []
listed key_error = []

abbrev one : {A : Type 0} → Result A → List A
one (done x) = x ∷ []
one data_error = []
one key_error = []

-- The rows of a bucket's results that the checks accept.
abbrev pub results_rows : Items → List Row
results_rows no_items = []
results_rows (item x rest) = one (and_then (object_of x) check_row) ++ results_rows rest

-- The rows of the buckets, in order.
abbrev pub buckets_rows : Items → List Row
buckets_rows no_items = []
buckets_rows (item x rest) =
    listed (
      and_then (object_of x) (λ bucket.
        and_then (list_of (get_or (codes "results") null bucket))
          (λ results. done (results_rows results))))
    ++ buckets_rows rest

abbrev pub rows_of : Json → List Row
rows_of buckets = listed (and_then (list_of buckets) (λ items. done (buckets_rows items)))

-- What the groups and the other usage count together.
abbrev pub grand_total : {Price : Type 0} → Column → Summary Price → ℕ
grand_total k s = groups_sum k s.groups + value k s.other_usage

module _ {Price Pricing : Type 0} (is_digit : ℕ → Bool) (lower : Text → Text) (no_price : Price)
    (price : Price → Row → Pricing → Price) (catalog : Catalog Pricing) where
  -- From one summary to the next by these rows.
  pub record Grown (rows : List Row) (s after : Summary Price) : Type 0 where
    pub totals : (k : Column) → grand_total k after ≡ grand_total k s + sum (amount k) rows
    pub cache :
        after.cache_write_tokens ≡ s.cache_write_tokens + sum (λ (r : Row). r.cache_write) rows
    pub unpriced : after.unpriced_tokens ≤ s.unpriced_tokens + sum (amount total_column) rows
    pub keys : keys_of after.groups ≡ keys_of s.groups
    pub split : IsSplit s.groups → IsSplit after.groups

  pub Grown-none : (s : Summary Price) → Grown [] s s
  Grown-none s = record {
    totals = λ k. omega arith;
    cache = omega arith;
    unpriced = omega arith;
    keys = refl;
    split = λ h. h;
  }

  Grown-trans :
      (rows more : List Row) (s t u : Summary Price)
      → Grown rows s t
      → Grown more t u
      → Grown (rows ++ more) s u
  Grown-trans rows more s t u g h = record {
    totals = λ k. omega (arith, g.totals k, h.totals k, sum-append (amount k) rows more);
    cache = omega (arith, g.cache, h.cache, sum-append (λ (r : Row). r.cache_write) rows more);
    unpriced = omega (arith, g.unpriced, h.unpriced, sum-append (amount total_column) rows more);
    keys = h.keys ∙ g.keys;
    split = λ x. h.split (g.split x);
  }

  -- The groups of the summary are those of the catalog.
  abbrev pub Covers : Summary Price → Type 0
  Covers s = keys_of s.groups ≡ keys_of catalog

  group_of-In :
      (r : Row) (key : Text)
      → group_of is_digit lower catalog r ≡ some key
      → In key (keys_of catalog)
  unfolding group_of
  group_of-In r key h = elim (Bool-cases (is_incentivized lower r.service_tier)) [
    | inr other ↦ absurd (let bad = rw (other, group_of) at h in cc)
    | inl free ↦ elim (Option-cases (find_model is_digit r.name catalog)) [
      | inl e ↦ absurd (let bad = rw (free, e, group_of) at h in cc)
      | inr (x, e) ↦ elim (Bool-cases (x.model.enabled && x.model.eligible)) [
        | inr off ↦ absurd (let bad = rw (free, e, off, group_of) at h in cc)
        | inl on ↦
            let same = rw (free, e, on, group_of) at h in
            let key_of : x.group ≡ key = cc in
            subst (λ k. In k (keys_of catalog)) key_of (find_model-In is_digit r.name catalog x e)
      ]
    ]
  ]

  abbrev Priced : Row → Summary Price → Summary Price → Type 0
  Priced r s t =
      (t.groups ≡ s.groups)
      × (t.other_usage ≡ s.other_usage)
      × (t.cache_write_tokens ≡ s.cache_write_tokens + r.cache_write)
      × (t.unpriced_tokens ≤ s.unpriced_tokens + (r.input + r.output))

  priced-Priced :
      (r : Row) (s : Summary Price) → Priced r s (priced is_digit lower no_price price catalog r s)
  unfolding priced
  priced-Priced r s = go (find_model is_digit r.name catalog)
    where
      go :
          (o : Option (Entry Pricing))
          → Priced r s (elim o [
            | none ↦ record s {
              cache_write_tokens = s.cache_write_tokens + r.cache_write;
              unpriced_tokens = s.unpriced_tokens + (r.input + r.output);
            }
            | some e ↦ record s {
              cache_write_tokens = s.cache_write_tokens + r.cache_write;
              list_price = price s.list_price r e.model.pricing;
            }
          ])
      go none = (refl, refl, refl, omega arith)
      go (some e) = (refl, refl, refl, omega arith)

  add_row-Grown :
      (r : Row) (s : Summary Price)
      → Covers s
      → Safe (Grown (r ∷ []) s) (add_row is_digit lower no_price price catalog r s)
  unfolding add_row
  add_row-Grown r s covers =
      let (g, o, c, u) = priced-Priced r s in
      elim (Option-cases (group_of is_digit lower catalog r)) [
        | inl e ↦
            rw (e, add_row)
              (record {
                totals =
                    λ k. omega (arith, value-add_tokens k s.other_usage r, ap (groups_sum k) g);
                cache = omega (arith, c);
                unpriced = omega (arith, u);
                keys = ap keys_of g;
                split = subst (λ x. IsSplit s.groups → IsSplit x) (sym g) (λ h. h);
              })
        | inr (key, e) ↦
            let inside = subst (In key) (sym covers) (group_of-In r key e) in
            let (groups, found, (sums, keys, split)) =
              add_group-Added key (clean_model_name is_digit r.name) r s.groups inside in
            rw (e, found, add_row)
              (record {
                totals = λ k. omega (arith, sums k, ap (value k) o);
                cache = omega (arith, c);
                unpriced = omega (arith, u);
                keys = keys;
                split = split;
              })
      ]

  -- A step by one list of rows and then by another is a step by both.
  pub then-Grown :
      (rows more : List Row) (s t : Summary Price) (m : Result (Summary Price))
      → Grown rows s t
      → Safe (Grown more t) m
      → Safe (Grown (rows ++ more) s) m
  then-Grown rows more s t (done u) g h = Grown-trans rows more s t u g h
  then-Grown rows more s t data_error g h = tt
  then-Grown rows more s t key_error g h = h

  pub summarize_results-Grown :
      (xs : Items) (s : Summary Price)
      → Covers s
      → Safe
          (Grown (results_rows xs) s)
          (summarize_results is_digit lower no_price price catalog xs s)
  unfolding summarize_results
  summarize_results-Grown no_items s covers = Grown-none s
  summarize_results-Grown (item x rest) s covers =
      and_then-Safe Always P (object_of x) _ (object_of-Safe x) (λ fs e _.
        and_then-Safe Always P (check_row fs) _ (check_row-Safe fs) (λ r f _.
          and_then-Safe (Grown (r ∷ []) s) P (add_row is_digit lower no_price price catalog r s) _
            (add_row-Grown r s covers)
            (λ after _ g.
              let rest_grows = summarize_results-Grown rest after (g.keys ∙ covers) in
              rw (e, f) (then-Grown (r ∷ []) (results_rows rest) s after _ g rest_grows))))
    where
      P : Summary Price → Type 0
      P = Grown (results_rows (item x rest)) s
