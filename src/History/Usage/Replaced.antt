-- ===== src/History/Usage/Replaced.antt =====
-- What a reconciled slice holds, by the row that a profile and a key find.
use openai_free_credit_track.Base.{
  ℕ, ◌≡◌, inl, inr, refl, ap, subst, Bool, true, false, Option, some, none, List, [], ◌∷◌, ◌&&◌,
  arith, if◌then◌else◌, Bool-cases, Option-cases,
}
use openai_free_credit_track.Base.Text.{Text, text_eq, text_eq→eq, text_eq_refl}
use openai_free_credit_track.History.Usage.{
  BucketKey, UsageBucket, StoredBucket, UsageRow, stored_of, key_eq, is_inside, add, stage_one,
  stage_from, find_bucket, find_row, is_staged, is_deleted, delete_rows, put_row, put_rows,
  replace_rows,
}

pub key_eq→eq : (a b : BucketKey) → key_eq a b ≡ true → a ≡ b
unfolding key_eq
key_eq→eq a b h =
    let e1 : a.bucket_start ≡ b.bucket_start = ground arith in
    let e2 : a.bucket_end ≡ b.bucket_end = ground arith in
    let t3 : text_eq a.project_key b.project_key ≡ true = ground arith in
    let t4 : text_eq a.model b.model ≡ true = ground arith in
    let t5 : text_eq a.service_tier b.service_tier ≡ true = ground arith in
    let e3 = text_eq→eq _ _ t3 in let e4 = text_eq→eq _ _ t4 in let e5 = text_eq→eq _ _ t5 in cc

key_eq_refl : (a : BucketKey) → key_eq a a ≡ true
unfolding key_eq
key_eq_refl a =
    ground (arith, text_eq_refl a.project_key, text_eq_refl a.model, text_eq_refl a.service_tier)

key_eq_other : (x b k : BucketKey) → key_eq x b ≡ false → key_eq x k ≡ true → key_eq b k ≡ false
key_eq_other x b k h e = elim (Bool-cases (key_eq b k)) [
  | inl same ↦
      let xk = key_eq→eq x k e in
      let bk = key_eq→eq b k same in
      absurd (
        let r = key_eq_refl x in
        let xb : key_eq x b ≡ key_eq x x = ap (key_eq x) (let q : b ≡ x = cc in q) in cc)
  | inr other ↦ other
]

-- The bucket after one more was added.
abbrev pub joined : UsageBucket → Option StoredBucket → StoredBucket
joined b none = stored_of b
joined b (some x) = add x b

pub find_bucket-stage_one :
    (k : BucketKey) (b : UsageBucket) (xs : List StoredBucket)
    → find_bucket k (stage_one b xs)
      ≡ (if key_eq b.key k then some (joined b (find_bucket k xs)) else find_bucket k xs)
unfolding find_bucket stage_one
find_bucket-stage_one k b [] = refl
find_bucket-stage_one k b (x ∷ xs) = elim (Bool-cases (key_eq x.key b.key)) [
  | inl same ↦
      let e : key_eq x.key k ≡ key_eq b.key k = ap (λ t. key_eq t k) (key_eq→eq x.key b.key same) in
      elim (Bool-cases (key_eq b.key k)) [
        | inl here ↦ let h : key_eq x.key k ≡ true = cc in rw (same, h, here) refl
        | inr there ↦ let h : key_eq x.key k ≡ false = cc in rw (same, h, there) refl
      ]
  | inr other ↦ elim (Bool-cases (key_eq x.key k)) [
    | inl here ↦ rw (other, here, key_eq_other x.key b.key k other here) refl
    | inr there ↦ rw (other, there) (find_bucket-stage_one k b xs)
  ]
]

abbrev is_row : UsageRow → Text → BucketKey → Bool
is_row x q k = text_eq x.profile_id q && key_eq x.bucket.key k

is_row→eq :
    (x : UsageRow) (q : Text) (k : BucketKey)
    → is_row x q k ≡ true
    → (x.profile_id ≡ q) × (x.bucket.key ≡ k)
is_row→eq x q k h =
    let t : text_eq x.profile_id q ≡ true = ground arith in
    let e : key_eq x.bucket.key k ≡ true = ground arith in (text_eq→eq _ _ t, key_eq→eq _ _ e)

is_row_refl : (p : Text) (k : BucketKey) → text_eq p p && key_eq k k ≡ true
is_row_refl p k = rw (text_eq_refl p, key_eq_refl k) refl

-- A row that the two keys find would be under both.
row_other :
    (x : UsageRow) (p q : Text) (b k : BucketKey)
    → is_row x p b ≡ false
    → is_row x q k ≡ true
    → text_eq p q && key_eq b k ≡ false
row_other x p q b k h e = elim (Bool-cases (text_eq p q && key_eq b k)) [
  | inl same ↦
      let (xq, xk) = is_row→eq x q k e in
      let t : text_eq p q ≡ true = ground arith in
      let u : key_eq b k ≡ true = ground arith in
      let pq = text_eq→eq p q t in
      let bk = key_eq→eq b k u in
      let r = is_row_refl x.profile_id x.bucket.key in
      let xp : p ≡ x.profile_id = cc in
      let xb : b ≡ x.bucket.key = cc in absurd (let z : is_row x p b ≡ true = rw (xp, xb) r in cc)
  | inr other ↦ other
]

find_row-put_row :
    (q p : Text) (k : BucketKey) (b : StoredBucket) (xs : List UsageRow)
    → find_row q k (put_row p b xs)
      ≡ (if text_eq p q && key_eq b.key k then some b else find_row q k xs)
unfolding find_row put_row
find_row-put_row q p k b [] = refl
find_row-put_row q p k b (x ∷ xs) = elim (Bool-cases (is_row x p b.key)) [
  | inl same ↦
      let (e, f) = is_row→eq x p b.key same in
      let t : is_row x q k ≡ (text_eq p q && key_eq b.key k) = cc in
      elim (Bool-cases (text_eq p q && key_eq b.key k)) [
        | inl here ↦ rw (same, here) refl
        | inr there ↦ let h : is_row x q k ≡ false = cc in rw (same, there, h) refl
      ]
  | inr other ↦ elim (Bool-cases (is_row x q k)) [
    | inl here ↦ rw (other, here, row_other x p q b.key k other here) refl
    | inr there ↦ rw (other, there) (find_row-put_row q p k b xs)
  ]
]

same_either_way : {A : Type 0} (b : Bool) (x : A) → x ≡ (if b then x else x)
same_either_way true x = refl
same_either_way false x = refl

find_row-delete_rows :
    (q p : Text) (k : BucketKey) (s e : ℕ) (staged : List StoredBucket) (xs : List UsageRow)
    → find_row q k (delete_rows p s e staged xs)
      ≡ (if is_deleted p s e staged q k then none else find_row q k xs)
unfolding find_row delete_rows
find_row-delete_rows q p k s e staged [] = same_either_way (is_deleted p s e staged q k) none
find_row-delete_rows q p k s e staged (x ∷ xs) =
    let rest = find_row-delete_rows q p k s e staged xs in
    elim (Bool-cases (is_row x q k)) [
      | inl here ↦
          let (a, b) = is_row→eq x q k here in
          let t : is_deleted p s e staged x.profile_id x.bucket.key ≡ is_deleted p s e staged q k =
            cc in
          elim (Bool-cases (is_deleted p s e staged q k)) [
            | inl gone ↦
                let h : is_deleted p s e staged x.profile_id x.bucket.key ≡ true = cc in
                let r : find_row q k (delete_rows p s e staged xs) ≡ none = rw gone at rest in
                rw (h, gone) r
            | inr kept ↦
                let h : is_deleted p s e staged x.profile_id x.bucket.key ≡ false = cc in
                rw (h, kept, here) refl
          ]
      | inr there ↦ elim (Bool-cases (is_deleted p s e staged x.profile_id x.bucket.key)) [
        | inl gone ↦ rw (gone, there) rest
        | inr kept ↦ rw (kept, there) rest
      ]
    ]

-- The staged bucket if there is one, else the other.
abbrev pub first_of : Option StoredBucket → Option StoredBucket → Option StoredBucket
first_of none o = o
first_of (some b) o = some b

find_row-put_rows :
    (q p : Text) (k : BucketKey) (staged : List StoredBucket) (rows : List UsageRow)
    → find_row q k (put_rows p staged rows) ≡ (
        if text_eq p q
        then first_of (find_bucket k staged) (find_row q k rows)
        else find_row q k rows)
unfolding put_rows find_bucket
find_row-put_rows q p k [] rows = same_either_way (text_eq p q) (find_row q k rows)
find_row-put_rows q p k (b ∷ staged) rows =
    let rest = find_row-put_rows q p k staged rows in
    let head = find_row-put_row q p k b (put_rows p staged rows) in
    elim (Bool-cases (text_eq p q)) [
      | inl same ↦ elim (Bool-cases (key_eq b.key k)) [
        | inl here ↦ rw (head, same, here) refl
        | inr there ↦ rw (head, rest, same, there) refl
      ]
      | inr other ↦ rw (head, rest, other) refl
    ]

replaced :
    (q p : Text) (k : BucketKey) (s e : ℕ) (buckets : List UsageBucket) (rows : List UsageRow)
    → find_row q k (replace_rows p s e buckets rows) ≡ (
        if text_eq p q
        then first_of
            (find_bucket k (stage_from [] buckets))
            (if is_deleted p s e (stage_from [] buckets) q k then none else find_row q k rows)
        else if is_deleted p s e (stage_from [] buckets) q k
        then none
        else find_row q k rows)
unfolding replace_rows
replaced q p k s e buckets rows =
    rw
      (
        find_row-put_rows q p k (stage_from [] buckets)
            (delete_rows p s e (stage_from [] buckets) rows),
        find_row-delete_rows q p k s e (stage_from [] buckets) rows,
      )
      refl

text_eq_sym : (p q : Text) → text_eq p q ≡ false → text_eq q p ≡ false
text_eq_sym p q h = elim (Bool-cases (text_eq q p)) [
  | inl same ↦
      let e = text_eq→eq q p same in
      let r = text_eq_refl q in
      absurd (let z : text_eq p q ≡ true = subst (λ t. text_eq t q ≡ true) e r in cc)
  | inr other ↦ other
]

pub replaced_other :
    (q p : Text) (k : BucketKey) (s e : ℕ) (buckets : List UsageBucket) (rows : List UsageRow)
    → text_eq p q ≡ false
    → find_row q k (replace_rows p s e buckets rows) ≡ find_row q k rows
unfolding is_deleted
replaced_other q p k s e buckets rows h =
    rw (replaced q p k s e buckets rows, h, text_eq_sym p q h) refl

pub replaced_inside :
    (p : Text) (k : BucketKey) (s e : ℕ) (buckets : List UsageBucket) (rows : List UsageRow)
    → is_inside s e k ≡ true
    → find_row p k (replace_rows p s e buckets rows) ≡ find_bucket k (stage_from [] buckets)
unfolding is_deleted
replaced_inside p k s e buckets rows h =
    elim (Option-cases (find_bucket k (stage_from [] buckets))) [
      | inl missing ↦
          rw (replaced p p k s e buckets rows, text_eq_refl p, h, missing, is_staged) refl
      | inr (b, there) ↦ rw (replaced p p k s e buckets rows, text_eq_refl p, there) refl
    ]

pub replaced_outside :
    (p : Text) (k : BucketKey) (s e : ℕ) (buckets : List UsageBucket) (rows : List UsageRow)
    → is_inside s e k ≡ false
    → find_bucket k (stage_from [] buckets) ≡ none
    → find_row p k (replace_rows p s e buckets rows) ≡ find_row p k rows
unfolding is_deleted
replaced_outside p k s e buckets rows h missing =
    rw (replaced p p k s e buckets rows, text_eq_refl p, h, missing, is_staged) refl
