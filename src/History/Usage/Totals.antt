-- ===== src/History/Usage/Totals.antt =====
-- The amounts that a reconciled slice stores are the sums over the buckets it was given.
use openai_free_credit_track.Base.{
  ℕ, ◌+◌, ◌^◌, ◌≡◌, inl, inr, refl, ap, subst, Bool, true, false, Option, some, none, List, [], ◌∷◌,
  ◌&&◌, ◌||◌, arith, if◌then◌else◌, Bool-cases, all, ltb,
}
use openai_free_credit_track.Base.Text.{Text, text_eq, text_eq→eq}
use openai_free_credit_track.History.Runs.{done}
use openai_free_credit_track.History.Usage.{
  BucketKey, UsageBucket, Amount, integer, real, StoredBucket, UsageRow, is_int64, is_bindable,
  stored_of, add_amount, key_eq, is_inside, add, stage_one, stage_from, find_bucket, find_row,
  replace_rows, is_valid_bucket, reconcile_rows,
}
use openai_free_credit_track.History.Usage.Replaced.{
  key_eq→eq, joined, find_bucket-stage_one, replaced_other, replaced_inside, replaced_outside,
}

-- A column of the row that was found, if one was.
abbrev pub column : (StoredBucket → Amount) → Option StoredBucket → Option Amount
column f none = none
column f (some b) = some (f b)

-- A number as a column holds it.
abbrev pub as_amount : ℕ → Amount
as_amount n = if is_int64 n then integer n else real

-- The sum over the buckets under a key.
unfoldable pub total : (UsageBucket → ℕ) → BucketKey → List UsageBucket → ℕ
total f k [] = 0
total f k (b ∷ buckets) =
    let rest = total f k buckets in if key_eq b.key k then f b + rest else rest

-- A bucket is given under the key.
unfoldable pub has_key : BucketKey → List UsageBucket → Bool
has_key k [] = false
has_key k (b ∷ buckets) = key_eq b.key k || has_key k buckets

-- The sum as a column holds it, or nothing without a bucket under the key.
abbrev pub stored_total : (UsageBucket → ℕ) → BucketKey → List UsageBucket → Option Amount
stored_total f k buckets = if has_key k buckets then some (as_amount (total f k buckets)) else none

add_amount-as_amount : (a n : ℕ) → add_amount (as_amount a) n ≡ as_amount (a + n)
unfolding add_amount is_int64
add_amount-as_amount a n = elim (Bool-cases (ltb a (2 ^ 63))) [
  | inl small ↦ rw small refl
  | inr large ↦ let more : ltb (a + n) (2 ^ 63) ≡ false = ground arith in rw (large, more) refl
]

-- A column of a stored bucket holds what the first bucket has, and adds what each other has.
abbrev IsColumn : (UsageBucket → ℕ) → (StoredBucket → Amount) → Type 0
IsColumn g f =
    ((b : UsageBucket) → f (stored_of b) ≡ integer (g b))
    × ((x : StoredBucket) (b : UsageBucket) → f (add x b) ≡ add_amount (f x) (g b))
    × ((b : UsageBucket) → is_bindable b ≡ true → is_int64 (g b) ≡ true)

-- The column after a sum so far, and the buckets that are left.
abbrev after_sum : (UsageBucket → ℕ) → BucketKey → Option ℕ → List UsageBucket → Option Amount
after_sum g k none buckets = stored_total g k buckets
after_sum g k (some n) buckets = some (as_amount (n + total g k buckets))

abbrev amount_of : Option ℕ → Option Amount
amount_of none = none
amount_of (some n) = some (as_amount n)

abbrev next_sum : Option ℕ → ℕ → ℕ
next_sum none n = n
next_sum (some a) n = a + n

column-joined :
    (g : UsageBucket → ℕ) (f : StoredBucket → Amount) (b : UsageBucket) (o : Option StoredBucket)
    (sum : Option ℕ)
    → IsColumn g f
    → is_bindable b ≡ true
    → column f o ≡ amount_of sum
    → f (joined b o) ≡ as_amount (next_sum sum (g b))
column-joined g f b none none (first, adds, fits) fit h = rw (first b, fits b fit) refl
column-joined g f b none (some a) c fit h = absurd cc
column-joined g f b (some x) none c fit h = absurd cc
column-joined g f b (some x) (some a) (first, adds, fits) fit h =
    let e : f x ≡ as_amount a = cc in rw (adds x b, e) (add_amount-as_amount a (g b))

after_sum-next :
    (g : UsageBucket → ℕ) (k : BucketKey) (sum : Option ℕ) (b : UsageBucket)
    (buckets : List UsageBucket)
    → after_sum g k sum (b ∷ buckets) ≡ (
        if key_eq b.key k
        then after_sum g k (some (next_sum sum (g b))) buckets
        else after_sum g k sum buckets)
unfolding total has_key
after_sum-next g k none b buckets = elim (Bool-cases (key_eq b.key k)) [
  | inl same ↦ rw same refl
  | inr other ↦ rw other refl
]
after_sum-next g k (some n) b buckets = elim (Bool-cases (key_eq b.key k)) [
  | inl same ↦
      let e : n + (g b + total g k buckets) ≡ n + g b + total g k buckets = omega arith in
      rw (same, e) refl
  | inr other ↦ rw other refl
]

stage_from-column :
    (g : UsageBucket → ℕ) (f : StoredBucket → Amount) (k : BucketKey) (staged : List StoredBucket)
    (buckets : List UsageBucket) (sum : Option ℕ)
    → IsColumn g f
    → all is_bindable buckets ≡ true
    → column f (find_bucket k staged) ≡ amount_of sum
    → column f (find_bucket k (stage_from staged buckets)) ≡ after_sum g k sum buckets
unfolding stage_from total has_key
stage_from-column g f k staged [] none c fit h = h
stage_from-column g f k staged [] (some n) c fit h = let e : n + 0 ≡ n = omega arith in rw e h
stage_from-column g f k staged (b ∷ buckets) sum c fit h =
    let this : is_bindable b ≡ true = ground arith in
    let others : all is_bindable buckets ≡ true = ground arith in
    let here = find_bucket-stage_one k b staged in
    let rest = stage_from-column g f k (stage_one b staged) buckets in
    elim (Bool-cases (key_eq b.key k)) [
      | inl same ↦
          let joint = ap some (column-joined g f b (find_bucket k staged) sum c this h) in
          rw (after_sum-next g k sum b buckets, same)
            (rest (some (next_sum sum (g b))) c others (rw (here, same) joint))
      | inr other ↦
          rw (after_sum-next g k sum b buckets, other) (rest sum c others (rw (here, other) h))
    ]

valid_inside :
    (s e : ℕ) (b : UsageBucket) → is_valid_bucket s e b ≡ true → is_inside s e b.key ≡ true
unfolding is_valid_bucket
valid_inside s e b h = ground arith

not_key :
    (s e : ℕ) (k : BucketKey) (b : UsageBucket)
    → is_inside s e k ≡ false
    → is_inside s e b.key ≡ true
    → key_eq b.key k ≡ false
not_key s e k b h i = elim (Bool-cases (key_eq b.key k)) [
  | inl same ↦
      let same_key = key_eq→eq b.key k same in absurd (let j = ap (is_inside s e) same_key in cc)
  | inr other ↦ other
]

-- Valid buckets leave a key outside their slice without one.
stage_from-outside :
    (s e : ℕ) (k : BucketKey) (staged : List StoredBucket) (buckets : List UsageBucket)
    → is_inside s e k ≡ false
    → all (is_valid_bucket s e) buckets ≡ true
    → find_bucket k staged ≡ none
    → find_bucket k (stage_from staged buckets) ≡ none
unfolding stage_from
stage_from-outside s e k staged [] h v n = n
stage_from-outside s e k staged (b ∷ buckets) h v n =
    let valid : is_valid_bucket s e b ≡ true = ground arith in
    let others : all (is_valid_bucket s e) buckets ≡ true = ground arith in
    let other : key_eq b.key k ≡ false = not_key s e k b h (valid_inside s e b valid) in
    stage_from-outside s e k (stage_one b staged) buckets h others
      (rw (find_bucket-stage_one k b staged, other) n)

reconciled :
    (p : Text) (s e : ℕ) (buckets : List UsageBucket) (rows after : List UsageRow)
    → reconcile_rows p s e buckets rows ≡ done after
    → (all is_bindable buckets ≡ true) × (replace_rows p s e buckets rows ≡ after)
unfolding reconcile_rows
reconciled p s e buckets rows after h = elim (Bool-cases (all is_bindable buckets)) [
  | inl fit ↦ (fit, let made = rw fit at h in cc)
  | inr bad ↦ absurd (let no = rw bad at h in cc)
]

stored :
    (p : Text) (s e : ℕ) (buckets : List UsageBucket) (rows after : List UsageRow) (k : BucketKey)
    (g : UsageBucket → ℕ) (f : StoredBucket → Amount)
    → reconcile_rows p s e buckets rows ≡ done after
    → is_inside s e k ≡ true
    → IsColumn g f
    → column f (find_row p k after) ≡ stored_total g k buckets
unfolding find_bucket
stored p s e buckets rows after k g f h inside c =
    let (fit, made) = reconciled p s e buckets rows after h in
    subst (λ l. column f (find_row p k l) ≡ stored_total g k buckets) made
      (rw (replaced_inside p k s e buckets rows inside)
        (stage_from-column g f k [] buckets none c fit refl))

-- After the rows of a slice are replaced, under a key inside the slice: the profile has no row if no
-- given bucket has the key, so that nothing is kept from before; and otherwise each of its four
-- amounts is the sum over the given buckets with the key, as long as the sum is below 2 ^ 63, and a
-- REAL from there on.
pub reconcile_rows_lem :
    (p : Text) (s e : ℕ) (buckets : List UsageBucket) (rows after : List UsageRow) (k : BucketKey)
    → reconcile_rows p s e buckets rows ≡ done after
    → is_inside s e k ≡ true
    → (column (λ x. x.input_tokens) (find_row p k after)
        ≡ stored_total (λ b. b.input_tokens) k buckets)
      × (column (λ x. x.cached_input_tokens) (find_row p k after)
          ≡ stored_total (λ b. b.cached_input_tokens) k buckets)
      × (column (λ x. x.output_tokens) (find_row p k after)
          ≡ stored_total (λ b. b.output_tokens) k buckets)
      × (column (λ x. x.request_count) (find_row p k after)
          ≡ stored_total (λ b. b.request_count) k buckets)
unfolding is_bindable
reconcile_rows_lem p s e buckets rows after k h inside =
    let put = stored p s e buckets rows after k in
    (
      put _ _ h inside (λ b. refl, λ x b. refl, λ b fit. ground arith),
      put _ _ h inside (λ b. refl, λ x b. refl, λ b fit. ground arith),
      put _ _ h inside (λ b. refl, λ x b. refl, λ b fit. ground arith),
      put _ _ h inside (λ b. refl, λ x b. refl, λ b fit. ground arith),
    )

unchanged :
    (p q : Text) (s e : ℕ) (buckets : List UsageBucket) (rows : List UsageRow) (k : BucketKey)
    → all (is_valid_bucket s e) buckets ≡ true
    → text_eq p q && is_inside s e k ≡ false
    → find_row q k (replace_rows p s e buckets rows) ≡ find_row q k rows
unfolding find_bucket
unchanged p q s e buckets rows k valid away = elim (Bool-cases (text_eq p q)) [
  | inl same ↦
      let outside : is_inside s e k ≡ false = ground arith in
      subst (λ t. find_row t k (replace_rows p s e buckets rows) ≡ find_row t k rows)
        (text_eq→eq p q same)
        (replaced_outside p k s e buckets rows outside
          (stage_from-outside s e k [] buckets outside valid refl))
  | inr other ↦ replaced_other q p k s e buckets rows other
]

-- Replacing the rows of a slice, by buckets that are valid for it, changes no row of another profile, and no row of its profile under a key that
-- does not lie inside the slice.
pub reconcile_rows-elsewhere :
    (p q : Text) (s e : ℕ) (buckets : List UsageBucket) (rows after : List UsageRow) (k : BucketKey)
    → all (is_valid_bucket s e) buckets ≡ true
    → reconcile_rows p s e buckets rows ≡ done after
    → text_eq p q && is_inside s e k ≡ false
    → find_row q k after ≡ find_row q k rows
reconcile_rows-elsewhere p q s e buckets rows after k valid h away =
    let (fit, made) = reconciled p s e buckets rows after h in
    subst (λ l. find_row q k l ≡ find_row q k rows) made
      (unchanged p q s e buckets rows k valid away)
