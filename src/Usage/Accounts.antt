-- ===== src/Usage/Accounts.antt =====
-- The summary of all buckets accounts for every row.
use openai_free_credit_track.Base.{
  ℕ, ◌≤◌, ◌≡◌, ◌≢◌, refl, ap, ◌∙◌, subst, Bool, List, [], ◌∷◌, arith, sum,
}
use openai_free_credit_track.Base.Text.{Text, codes}
use openai_free_credit_track.Json.{Json, null, Items, no_items, item, get_or}
use openai_free_credit_track.Usage.{Catalog, empty_totals, Row}
use openai_free_credit_track.Usage.Rows.{Result, done, data_error, key_error, object_of, list_of}
use openai_free_credit_track.Usage.Safe.{Safe, Always, and_then-Safe, object_of-Safe, list_of-Safe}
use openai_free_credit_track.Usage.Summary.{
  Summary, summarize_results, summarize_buckets, empty_groups, summarize_usage,
}
use openai_free_credit_track.Usage.Lookup.{keys_of}
use openai_free_credit_track.Usage.Balance.{
  Column, amount, value_empty, groups_sum, IsSplit, total_column,
}
use openai_free_credit_track.Usage.Conserved.{
  results_rows, buckets_rows, rows_of, grand_total, Grown, Grown-none, then-Grown, Covers,
  summarize_results-Grown,
}

empty_groups_keys :
    {P : Type 0} (groups : Catalog P) → keys_of (empty_groups groups) ≡ keys_of groups
empty_groups_keys [] = refl
empty_groups_keys ((k, models) ∷ rest) = ap (λ ks. k ∷ ks) (empty_groups_keys rest)

empty_groups_sum :
    {P : Type 0} (c : Column) (groups : Catalog P) → groups_sum c (empty_groups groups) ≡ 0
empty_groups_sum c [] = refl
empty_groups_sum c ((k, models) ∷ rest) = omega (arith, value_empty c, empty_groups_sum c rest)

empty_groups-IsSplit : {P : Type 0} (groups : Catalog P) → IsSplit (empty_groups groups)
empty_groups-IsSplit [] = tt
empty_groups-IsSplit ((k, models) ∷ rest) =
    ((λ c. omega (arith, value_empty c)), empty_groups-IsSplit rest)

module _ {Price Pricing : Type 0} (is_digit : ℕ → Bool) (lower : Text → Text) (no_price : Price)
    (price : Price → Row → Pricing → Price) (catalog : Catalog Pricing) where
  abbrev Steps : List Row → Summary Price → Summary Price → Type 0
  Steps = Grown is_digit lower no_price price catalog

  summarize_buckets-Grown :
      (xs : Items) (s : Summary Price)
      → Covers is_digit lower no_price price catalog s
      → Safe
          (Steps (buckets_rows xs) s)
          (summarize_buckets is_digit lower no_price price catalog xs s)
  unfolding summarize_buckets
  summarize_buckets-Grown no_items s covers = Grown-none is_digit lower no_price price catalog s
  summarize_buckets-Grown (item x rest) s covers =
      and_then-Safe Always P (object_of x) _ (object_of-Safe x) (λ bucket e _.
        and_then-Safe Always P (list_of (get_or (codes "results") null bucket)) _ (list_of-Safe _)
          (λ results f _.
            and_then-Safe (Steps (results_rows results) s) P
              (summarize_results is_digit lower no_price price catalog results s) _
              (summarize_results-Grown is_digit lower no_price price catalog results s covers)
              (λ after _ g.
                let rest_grows = summarize_buckets-Grown rest after (g.keys ∙ covers) in
                rw (e, f)
                  (then-Grown is_digit lower no_price price catalog (results_rows results)
                    (buckets_rows rest) s after _ g rest_grows))))
    where
      P : Summary Price → Type 0
      P = Steps (buckets_rows (item x rest)) s

  abbrev start : Summary Price
  start = record {
    groups = empty_groups catalog;
    other_usage = empty_totals;
    list_price = no_price;
    cache_write_tokens = 0;
    unpriced_tokens = 0;
    debug = [];
  }

  -- What a summary owes to the rows.
  abbrev pub IsAccount : List Row → Summary Price → Type 0
  IsAccount rows s =
      ((k : Column) → grand_total k s ≡ sum (amount k) rows)
      × IsSplit s.groups
      × (s.cache_write_tokens ≡ sum (λ (r : Row). r.cache_write) rows)
      × (s.unpriced_tokens ≤ grand_total total_column s)

  Grown-IsAccount : (rows : List Row) (s : Summary Price) → Steps rows start s → IsAccount rows s
  Grown-IsAccount rows s g = (
    λ k. omega (arith, g.totals k, empty_groups_sum k catalog, value_empty k),
    g.split (empty_groups-IsSplit catalog),
    omega (arith, g.cache),
    omega (arith, g.unpriced, g.totals total_column),
  )

  summarize_usage-Safe :
      (buckets : Json)
      → Safe
          (IsAccount (rows_of buckets))
          (summarize_usage is_digit lower no_price price catalog buckets)
  unfolding summarize_usage
  summarize_usage-Safe buckets =
      and_then-Safe Always (IsAccount (rows_of buckets)) (list_of buckets) _ (list_of-Safe buckets)
        (λ items e _. rw e (
          accounted (buckets_rows items) _
            (summarize_buckets-Grown items start (empty_groups_keys catalog))))
    where
      accounted :
          (rows : List Row) (m : Result (Summary Price))
          → Safe (Steps rows start) m
          → Safe (IsAccount rows) m
      accounted rows (done s) h = Grown-IsAccount rows s h
      accounted rows data_error h = tt
      accounted rows key_error h = h

  -- A summary counts every row of the response's data exactly once: in each of the columns (input,
  -- cached input, output and total) the groups and the other usage add up to the rows, a group is
  -- the sum of its models, the cache writes are those of the rows, and no more tokens are without a
  -- price than there are.
  pub summarize_usage-IsAccount :
      (buckets : Json) (s : Summary Price)
      → summarize_usage is_digit lower no_price price catalog buckets ≡ done s
      → IsAccount (rows_of buckets) s
  summarize_usage-IsAccount buckets s h =
      subst (Safe (IsAccount (rows_of buckets))) h (summarize_usage-Safe buckets)

  -- Whatever the response holds, and whatever the catalog, a summary never fails with the key error
  -- of a group that is missing.
  pub summarize_usage_no_key_error :
      (buckets : Json) → summarize_usage is_digit lower no_price price catalog buckets ≢ key_error
  summarize_usage_no_key_error buckets h =
      subst (Safe (IsAccount (rows_of buckets))) h (summarize_usage-Safe buckets)
