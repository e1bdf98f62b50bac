-- ===== src/Usage/Safe.antt =====
-- Checking a row fails only with the data error.
use openai_free_credit_track.Base.{
  ℕ, zero, suc, ◌≡◌, inl, inr, refl, true, false, [], ◌∷◌, ◌||◌, ltb, Bool-cases,
}
use openai_free_credit_track.Base.Text.{Text, codes}
use openai_free_credit_track.Json.{
  Json, null, boolean, number, negative, fraction, text, array, object, no_items, item, Fields,
  no_fields, field, get_or,
}
use openai_free_credit_track.Usage.{Row}
use openai_free_credit_track.Usage.Rows.{
  Result, done, data_error, key_error, and_then, token_of, token_count, name_of, tier_of, object_of,
  list_of, check_row,
}

-- Not the key error; and the value, if it is one, has the property.
abbrev pub Safe : {A : Type 0} → (A → Type 0) → Result A → Type 0
Safe P (done a) = P a
Safe P data_error = Unit
Safe P key_error = ⊥

pub and_then-Safe :
    {A B : Type 0} (P : A → Type 0) (Q : B → Type 0) (m : Result A) (f : A → Result B)
    → Safe P m
    → ((a : A) → m ≡ done a → P a → Safe Q (f a))
    → Safe Q (and_then m f)
and_then-Safe P Q (done a) f h k = k a refl h
and_then-Safe P Q data_error f h k = tt
and_then-Safe P Q key_error f h k = absurd h

abbrev pub Always : {A : Type 0} → A → Type 0
Always a = Unit

token_of-Safe : (j : Json) → Safe Always (token_of j)
token_of-Safe (number n) = tt
token_of-Safe (negative n) = tt
token_of-Safe null = tt
token_of-Safe (boolean b) = tt
token_of-Safe (fraction n) = tt
token_of-Safe (text t) = tt
token_of-Safe (array xs) = tt
token_of-Safe (object fs) = tt

token_count-Safe : (row : Fields) (key : Text) → Safe Always (token_count row key)
unfolding token_count
token_count-Safe row key = token_of-Safe (get_or key (number 0) row)

name_of-Safe : (j : Json) → Safe Always (name_of j)
name_of-Safe (text []) = tt
name_of-Safe (text (c ∷ t)) = tt
name_of-Safe null = tt
name_of-Safe (boolean true) = tt
name_of-Safe (boolean false) = tt
name_of-Safe (number zero) = tt
name_of-Safe (number (suc n)) = tt
name_of-Safe (negative n) = tt
name_of-Safe (fraction zero) = tt
name_of-Safe (fraction (suc n)) = tt
name_of-Safe (array no_items) = tt
name_of-Safe (array (item x xs)) = tt
name_of-Safe (object no_fields) = tt
name_of-Safe (object (field k v fs)) = tt

tier_of-Safe : (j : Json) → Safe Always (tier_of j)
tier_of-Safe null = tt
tier_of-Safe (text t) = tt
tier_of-Safe (boolean b) = tt
tier_of-Safe (number n) = tt
tier_of-Safe (negative n) = tt
tier_of-Safe (fraction n) = tt
tier_of-Safe (array xs) = tt
tier_of-Safe (object fs) = tt

pub object_of-Safe : (j : Json) → Safe Always (object_of j)
object_of-Safe (object fs) = tt
object_of-Safe null = tt
object_of-Safe (boolean b) = tt
object_of-Safe (number n) = tt
object_of-Safe (negative n) = tt
object_of-Safe (fraction n) = tt
object_of-Safe (text t) = tt
object_of-Safe (array xs) = tt

pub list_of-Safe : (j : Json) → Safe Always (list_of j)
list_of-Safe (array xs) = tt
list_of-Safe null = tt
list_of-Safe (boolean b) = tt
list_of-Safe (number n) = tt
list_of-Safe (negative n) = tt
list_of-Safe (fraction n) = tt
list_of-Safe (text t) = tt
list_of-Safe (object fs) = tt

pub check_row-Safe : (row : Fields) → Safe Always (check_row row)
unfolding check_row
check_row-Safe row =
    and_then-Safe Always Always (name_of (get_or (codes "model") null row)) _ (name_of-Safe _)
      (λ name _ _.
        and_then-Safe Always Always (tier_of (get_or (codes "service_tier") null row)) _
          (tier_of-Safe _)
          (λ tier _ _. count "input_tokens" _ (λ input. count "input_cached_tokens" _ (λ cached.
            count "input_cache_write_tokens" _ (λ written. count "output_tokens" _ (λ output.
              elim (Bool-cases (ltb input cached || ltb input written)) [
                | inl bad ↦ rw bad tt
                | inr good ↦ rw good tt
              ]))))))
  where
    count :
        (key : _) (f : ℕ → Result Row)
        → ((n : ℕ) → Safe Always (f n))
        → Safe Always (and_then (token_count row (codes key)) f)
    count key f h =
        and_then-Safe Always Always (token_count row (codes key)) f
          (token_count-Safe row (codes key)) (λ n _ _. h n)
