-- ===== src/Usage.antt =====
-- src/quota_monitor/usage_service.py: the summary of a day's usage, with the catalog's index of
-- model_catalog.py and the service tiers of classification.py. The arithmetic of floats, in which
-- the list price is estimated, `str.strip`, `str.lower` and the digits of `re` are parameters.
pub mod Rows
pub mod Summary
pub mod Lookup
pub mod Safe
pub mod Balance
pub mod Conserved
pub mod Accounts
mod Tests
use openai_free_credit_track.Base.{
  ℕ, ◌+◌, Bool, true, false, Option, some, none, List, [], ◌∷◌, ◌++◌, ◌&&◌, ◌||◌, not, ltb, ◌==◌,
  if◌then◌else◌, any, is_empty,
}
use openai_free_credit_track.Base.Text.{Text, codes, text_eq}
use openai_free_credit_track.Json.{
  Json, null, boolean, number, negative, fraction, text, array, object, Items, no_items, item,
  Fields, get_or,
}

-- A model of the catalog, whose pricing is of the parameter's type.
pub record Model (Pricing : Type 0) : Type 0 where
  pub id : Text
  pub aliases : List Text
  pub enabled : Bool
  pub eligible : Bool
  pub pricing : Pricing

-- `catalog["groups"]`, with the models of a group.
abbrev pub Catalog : Type 0 → Type 0
Catalog Pricing = List (Text × List (Model Pricing))

pub record Entry (Pricing : Type 0) : Type 0 where
  pub group : Text
  pub model : Model Pricing

pub record Totals : Type 0 where
  pub input : ℕ
  pub cached_input : ℕ
  pub output : ℕ
  pub total : ℕ

-- `_empty_totals`
abbrev pub empty_totals : Totals
empty_totals = record { input = 0; cached_input = 0; output = 0; total = 0 }

-- `_add_tokens`
unfoldable pub add_tokens : Totals → ℕ → ℕ → ℕ → Totals
add_tokens t i c o = record {
  input = t.input + i;
  cached_input = t.cached_input + c;
  output = t.output + o;
  total = t.total + (i + o);
}

pub record Group : Type 0 where
  pub totals : Totals
  pub models : List (Text × Totals)

-- The values of a result once they are checked.
pub record Row : Type 0 where
  pub name : Text
  pub service_tier : Option Text
  pub input : ℕ
  pub cached : ℕ
  pub cache_write : ℕ
  pub output : ℕ

abbrev pub Index : Type 0 → Type 0
Index Pricing = List (Text × Entry Pricing)

-- The dictionary of `build_index`: what was put in last stands first, and is found first.
unfoldable pub index_aliases : {P : Type 0} → Entry P → List Text → Index P → Index P
index_aliases entry [] index = index
index_aliases entry (a ∷ rest) index = index_aliases entry rest ((a, entry) ∷ index)

unfoldable pub index_models : {P : Type 0} → Text → List (Model P) → Index P → Index P
index_models group [] index = index
index_models group (m ∷ rest) index = index_models group rest (
    index_aliases (record { group = group; model = m }) m.aliases
      ((m.id, record { group = group; model = m }) ∷ index))

unfoldable pub index_groups : {P : Type 0} → Catalog P → Index P → Index P
index_groups [] index = index
index_groups ((group, models) ∷ rest) index = index_groups rest (index_models group models index)

abbrev pub build_index : {P : Type 0} → Catalog P → Index P
build_index catalog = index_groups catalog []

unfoldable pub get_entry : {P : Type 0} → Text → Index P → Option (Entry P)
get_entry name [] = none
get_entry name ((k, entry) ∷ rest) =
    let later = get_entry name rest in if text_eq k name then some entry else later

-- `-20\d{2}-\d{2}-\d{2}$` at the start of the text: what follows the match, which is the end of
-- the text or its last line feed.
unfoldable pub date_suffix : (ℕ → Bool) → Text → Option Text
date_suffix is_digit (a ∷ b ∷ c ∷ d ∷ e ∷ f ∷ g ∷ h ∷ i ∷ j ∷ k ∷ rest) =
    if (a == 45)
      && (b == 50)
      && (c == 48)
      && is_digit d
      && is_digit e
      && (f == 45)
      && is_digit g
      && is_digit h
      && (i == 45)
      && is_digit j
      && is_digit k
      && (is_empty rest || text_eq rest (10 ∷ []))
    then some rest
    else none
date_suffix is_digit s = none

unfoldable pub drop_date : (ℕ → Bool) → Text → Text
drop_date is_digit [] = []
drop_date is_digit (c ∷ s) =
    let rest = drop_date is_digit s in
    elim (date_suffix is_digit (c ∷ s)) [ some after ↦ after | none ↦ c ∷ rest ]

unfoldable pub clean_model_name : (ℕ → Bool) → Text → Text
clean_model_name is_digit name =
    drop_date is_digit (if is_empty name then codes "unknown" else name)

unfoldable pub find_model : {P : Type 0} → (ℕ → Bool) → Text → Catalog P → Option (Entry P)
find_model is_digit name catalog = elim (get_entry name (build_index catalog)) [
  | some entry ↦ some entry
  | none ↦ get_entry (clean_model_name is_digit name) (build_index catalog)
]

-- `value.replace("_", "-")`
abbrev dashes : Text → Text
dashes [] = []
dashes (c ∷ s) = (if c == 95 then 45 else c) ∷ dashes s

-- `is_incentivized`, where `lower` is `value.strip().lower()`.
unfoldable pub is_incentivized : (Text → Text) → Option Text → Bool
is_incentivized lower tier =
    let value = dashes (lower (elim tier [ none ↦ [] | some t ↦ t ])) in
    text_eq value (codes "incentivized-tier")
    || text_eq value (codes "data-sharing")
    || text_eq value (codes "data-sharing-incentive")
