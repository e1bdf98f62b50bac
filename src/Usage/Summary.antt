-- ===== src/Usage/Summary.antt =====
-- `summarize_usage` of src/quota_monitor/usage_service.py.
use openai_free_credit_track.Base.{
  ℕ, ◌+◌, Bool, true, false, Option, some, none, List, [], ◌∷◌, ◌++◌, ◌&&◌, if◌then◌else◌,
}
use openai_free_credit_track.Base.Text.{Text, codes, text_eq}
use openai_free_credit_track.Json.{Json, null, Items, no_items, item, get_or}
use openai_free_credit_track.Usage.Rows.{
  Result, done, key_error, and_then, object_of, list_of, check_row,
}
use openai_free_credit_track.Usage.{
  Catalog, Entry, Totals, empty_totals, add_tokens, Group, Row, clean_model_name, find_model,
  is_incentivized,
}

-- `models.setdefault(name, _empty_totals())` and `_add_tokens` to it.
unfoldable pub add_model : Text → Row → List (Text × Totals) → List (Text × Totals)
add_model name r [] = (name, add_tokens empty_totals r.input r.cached r.output) ∷ []
add_model name r ((k, t) ∷ rest) =
    let later = add_model name r rest in
    if text_eq k name then (k, add_tokens t r.input r.cached r.output) ∷ rest else (k, t) ∷ later

abbrev pub add_to : Text → Row → Group → Group
add_to name r g = record {
  totals = add_tokens g.totals r.input r.cached r.output;
  models = add_model name r g.models;
}

-- The row added to the group of this key; `none` is the `KeyError`.
unfoldable pub add_group : Text → Text → Row → List (Text × Group) → Option (List (Text × Group))
add_group key name r [] = none
add_group key name r ((k, g) ∷ rest) =
    let later = add_group key name r rest in
    if text_eq k key
    then some ((k, add_to name r g) ∷ rest)
    else elim later [ none ↦ none | some groups ↦ some ((k, g) ∷ groups) ]

-- An entry of the debugging list: the category is complimentary or other.
pub record DebugRow : Type 0 where
  pub model : Text
  pub service_tier : Option Text
  pub tokens : ℕ
  pub complimentary : Bool

pub record Summary (Price : Type 0) : Type 0 where
  pub groups : List (Text × Group)
  pub other_usage : Totals
  pub list_price : Price
  pub cache_write_tokens : ℕ
  pub unpriced_tokens : ℕ
  pub debug : List DebugRow

abbrev pub eligible_group : {P : Type 0} → Option (Entry P) → Option Text
eligible_group none = none
eligible_group (some e) = if e.model.enabled && e.model.eligible then some e.group else none

-- The group that a row counts for, if it is complimentary.
unfoldable pub group_of : {P : Type 0} → (ℕ → Bool) → (Text → Text) → Catalog P → Row → Option Text
group_of is_digit lower catalog r =
    if is_incentivized lower r.service_tier
    then eligible_group (find_model is_digit r.name catalog)
    else none

abbrev pub empty_groups : {P : Type 0} → Catalog P → List (Text × Group)
empty_groups [] = []
empty_groups ((k, models) ∷ rest) =
    (k, record { totals = empty_totals; models = [] }) ∷ empty_groups rest

module _ {Price Pricing : Type 0} (is_digit : ℕ → Bool) (lower : Text → Text) (no_price : Price)
    (price : Price → Row → Pricing → Price) (catalog : Catalog Pricing) where
  -- The price and the tokens without a price.
  unfoldable pub priced : Row → Summary Price → Summary Price
  priced r s = elim (find_model is_digit r.name catalog) [
    | none ↦ record s {
      cache_write_tokens = s.cache_write_tokens + r.cache_write;
      unpriced_tokens = s.unpriced_tokens + (r.input + r.output);
    }
    | some e ↦ record s {
      cache_write_tokens = s.cache_write_tokens + r.cache_write;
      list_price = price s.list_price r e.model.pricing;
    }
  ]

  abbrev debug_row : Row → Bool → DebugRow
  debug_row r b = record {
    model = clean_model_name is_digit r.name;
    service_tier = r.service_tier;
    tokens = r.input + r.output;
    complimentary = b;
  }

  -- What the loop's body does with a checked row.
  unfoldable pub add_row : Row → Summary Price → Result (Summary Price)
  add_row r s = elim (group_of is_digit lower catalog r) [
    | none ↦ done (record (priced r s) {
      other_usage = add_tokens s.other_usage r.input r.cached r.output;
      debug = s.debug ++ (debug_row r false ∷ []);
    })
    | some key ↦ elim (add_group key (clean_model_name is_digit r.name) r s.groups) [
      | none ↦ key_error
      | some groups ↦
          done (record (priced r s) { groups = groups; debug = s.debug ++ (debug_row r true ∷ []) })
    ]
  ]

  unfoldable pub summarize_results : Items → Summary Price → Result (Summary Price)
  summarize_results no_items s = done s
  summarize_results (item x rest) s = and_then (object_of x) (λ fs.
      and_then (check_row fs) (λ r. and_then (add_row r s) (λ after. summarize_results rest after)))

  unfoldable pub summarize_buckets : Items → Summary Price → Result (Summary Price)
  summarize_buckets no_items s = done s
  summarize_buckets (item x rest) s = and_then (object_of x) (λ bucket.
      and_then (list_of (get_or (codes "results") null bucket))
        (λ results. and_then (summarize_results results s) (λ after. summarize_buckets rest after)))

  unfoldable pub summarize_usage : Json → Result (Summary Price)
  summarize_usage buckets = and_then (list_of buckets) (λ items. summarize_buckets items (record {
    groups = empty_groups catalog;
    other_usage = empty_totals;
    list_price = no_price;
    cache_write_tokens = 0;
    unpriced_tokens = 0;
    debug = [];
  }))
