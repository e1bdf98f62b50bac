-- ===== src/Usage/Tests.antt =====
-- A response like those of tests/test_usage_service.py, with prices left at zero.
use openai_free_credit_track.Base.{ℕ, ◌≡◌, ◌≢◌, refl, Bool, true, false, some, [], ◌∷◌, ◌&&◌, leb}
use openai_free_credit_track.Base.Text.{Text, codes, text_eq}
use openai_free_credit_track.Json.{
  Json, number, text, array, object, no_items, item, no_fields, field, get_field, get_or,
}
use openai_free_credit_track.Usage.{
  Model, Catalog, Row, Totals, add_tokens, empty_totals, index_aliases, index_models, index_groups,
  get_entry, date_suffix, drop_date, clean_model_name, find_model, is_incentivized,
}
use openai_free_credit_track.Usage.Rows.{done, key_error, check_row, token_count}
use openai_free_credit_track.Usage.Summary.{
  Summary, add_model, add_group, group_of, priced, add_row, summarize_results, summarize_buckets,
  summarize_usage,
}
use openai_free_credit_track.Usage.Conserved.{rows_of}
use openai_free_credit_track.Usage.Accounts.{
  IsAccount, summarize_usage-IsAccount, summarize_usage_no_key_error,
}

abbrev is_digit : ℕ → Bool
is_digit c = leb 48 c && leb c 57

abbrev lower : Text → Text
lower t = t

abbrev free_price : ℕ → Row → ℕ → ℕ
free_price total r pricing = total

abbrev mini : Model ℕ
mini = record {
  id = codes "gpt-5-mini";
  aliases = [];
  enabled = true;
  eligible = true;
  pricing = 1;
}

abbrev catalog : Catalog ℕ
catalog = (codes "standard", []) ∷ (codes "mini", mini ∷ []) ∷ []

abbrev result : Text → Text → Json
result name tier = object (
    field (codes "model") (text name) (
      field (codes "service_tier") (text tier) (
        field (codes "input_tokens") (number 30) (
          field (codes "input_cached_tokens") (number 10)
            (field (codes "output_tokens") (number 5) no_fields)))))

abbrev response : Json
response = array (
    item
      (object (
        field (codes "results")
          (array (
            item (result (codes "gpt-5-mini-2025-08-07") (codes "data_sharing"))
              (item (result (codes "other-model") (codes "default")) no_items)))
          no_fields))
      no_items)

-- The date of a name is dropped, and an underscore of a tier counts as a dash.
cleaned : clean_model_name is_digit (codes "gpt-5-mini-2025-08-07") ≡ codes "gpt-5-mini"
unfolding clean_model_name drop_date date_suffix text_eq
cleaned = refl

incentivized : is_incentivized lower (some (codes "data_sharing")) ≡ true
unfolding is_incentivized text_eq
incentivized = refl

abbrev thirty_five : Totals
thirty_five = record { input = 30; cached_input = 10; output = 5; total = 35 }

abbrev summary : Summary ℕ
summary = record {
  groups =
      (codes "standard", record { totals = empty_totals; models = [] })
      ∷ (
        codes "mini",
        record { totals = thirty_five; models = (codes "gpt-5-mini", thirty_five) ∷ [] },
      )
      ∷ [];
  other_usage = thirty_five;
  list_price = 0;
  cache_write_tokens = 0;
  unpriced_tokens = 35;
  debug =
      record {
        model = codes "gpt-5-mini";
        service_tier = some (codes "data_sharing");
        tokens = 35;
        complimentary = true;
      }
      ∷ record {
        model = codes "other-model";
        service_tier = some (codes "default");
        tokens = 35;
        complimentary = false;
      }
      ∷ [];
}

summarized : summarize_usage is_digit lower 0 free_price catalog response ≡ done summary
unfolding summarize_usage summarize_buckets summarize_results add_row priced group_of add_group
    add_model check_row token_count get_or get_field text_eq find_model get_entry index_groups
    index_models index_aliases clean_model_name drop_date date_suffix is_incentivized add_tokens
summarized = refl

summarize_usage-IsAccount_example :
    IsAccount is_digit lower 0 free_price catalog (rows_of response) summary
summarize_usage-IsAccount_example =
    summarize_usage-IsAccount is_digit lower 0 free_price catalog response summary summarized

summarize_usage_no_key_error_example :
    summarize_usage is_digit lower 0 free_price catalog response ≢ key_error
summarize_usage_no_key_error_example =
    summarize_usage_no_key_error is_digit lower 0 free_price catalog response
