-- ===== src/Usage/Balance.antt =====
-- The groups and the other usage add up to the rows.
use openai_free_credit_track.Base.{
  ℕ, ◌+◌, ◌≡◌, inl, inr, refl, sym, ap, ◌∙◌, false, some, List, [], ◌∷◌, arith, Bool-cases, All, In,
  sum,
}
use openai_free_credit_track.Base.Text.{Text, text_eq, text_eq_refl}
use openai_free_credit_track.Usage.{Totals, empty_totals, add_tokens, Group, Row}
use openai_free_credit_track.Usage.Summary.{add_model, add_to, add_group}
use openai_free_credit_track.Usage.Lookup.{keys_of}

pub data Column : Type 0 where
  input_column cached_column output_column total_column : Column

abbrev pub value : Column → Totals → ℕ
value input_column t = t.input
value cached_column t = t.cached_input
value output_column t = t.output
value total_column t = t.total

-- What a row adds to the column.
abbrev pub amount : Column → Row → ℕ
amount input_column r = r.input
amount cached_column r = r.cached
amount output_column r = r.output
amount total_column r = r.input + r.output

pub value-add_tokens :
    (k : Column) (t : Totals) (r : Row)
    → value k (add_tokens t r.input r.cached r.output) ≡ value k t + amount k r
unfolding add_tokens
value-add_tokens input_column t r = refl
value-add_tokens cached_column t r = refl
value-add_tokens output_column t r = refl
value-add_tokens total_column t r = refl

pub value_empty : (k : Column) → value k empty_totals ≡ 0
value_empty input_column = refl
value_empty cached_column = refl
value_empty output_column = refl
value_empty total_column = refl

abbrev pub models_sum : Column → List (Text × Totals) → ℕ
models_sum k models = sum (λ (m : Text × Totals). value k m.1) models

abbrev pub groups_sum : Column → List (Text × Group) → ℕ
groups_sum k groups = sum (λ (g : Text × Group). value k g.1.totals) groups

-- What a group counts is what its models count.
abbrev pub IsSplit : List (Text × Group) → Type 0
IsSplit groups =
    All (λ (g : Text × Group). (k : Column) → models_sum k g.1.models ≡ value k g.1.totals) groups

models_sum-add_model :
    (k : Column) (name : Text) (r : Row) (models : List (Text × Totals))
    → models_sum k (add_model name r models) ≡ models_sum k models + amount k r
unfolding add_model
models_sum-add_model k name r [] = omega (arith, value-add_tokens k empty_totals r, value_empty k)
models_sum-add_model k name r ((n, t) ∷ rest) = elim (Bool-cases (text_eq n name)) [
  | inl same ↦ rw same (omega (arith, value-add_tokens k t r))
  | inr other ↦ rw other (omega (arith, models_sum-add_model k name r rest))
]

-- What adding a row to a group guarantees.
abbrev pub Added : Row → List (Text × Group) → List (Text × Group) → Type 0
Added r groups after =
    ((k : Column) → groups_sum k after ≡ groups_sum k groups + amount k r)
    × (keys_of after ≡ keys_of groups)
    × (IsSplit groups → IsSplit after)

pub add_group-Added :
    (key name : Text) (r : Row) (groups : List (Text × Group))
    → In key (keys_of groups)
    → (after : List (Text × Group)) × (add_group key name r groups ≡ some after)
      × Added r groups after
unfolding add_group
add_group-Added key name r [] m = absurd m
add_group-Added key name r ((k, g) ∷ rest) m = elim (Bool-cases (text_eq k key)) [
  | inl same ↦ (
    (k, add_to name r g) ∷ rest,
    rw same refl,
    (
      λ c. omega (arith, value-add_tokens c g.totals r),
      refl,
      λ (s, h). (
        λ c.
            models_sum-add_model c name r g.models
            ∙ (rw (s c) (sym (value-add_tokens c g.totals r))),
        h,
      ),
    ),
  )
  | inr other ↦
      let (after, e, (sums, keys, split)) = add_group-Added key name r rest (later k m other) in
      (
        (k, g) ∷ after,
        rw other (rw e refl),
        (λ c. omega (arith, sums c), ap (λ ks. k ∷ ks) keys, λ (s, h). (s, split h)),
      )
]
  where
    later : (k : Text) → In key (k ∷ keys_of rest) → text_eq k key ≡ false → In key (keys_of rest)
    later k (inl e) other =
        absurd (let same = text_eq_refl key in let bad = rw (← e) at other in cc)
    later k (inr n) other = n
