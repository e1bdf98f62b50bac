-- ===== src/Base/Sorting.antt =====
-- Python's `sorted`, by a test that says whether an item may stand before another: it is stable.
use mathlib.Core.Path.{◌≡◌}
use mathlib.Core.Logic.{◌⊎◌, inl, inr}
use mathlib.Core.Bool.{Bool, true, false}
use mathlib.Core.List.{List, [], ◌∷◌}
use openai_free_credit_track.Base.Tests.{if◌then◌else◌, Bool-cases}
use openai_free_credit_track.Base.Predicates.{All, Any, In}

⊎_map : {P Q R : Type 0} → P ⊎ Q → (Q → R) → P ⊎ R
⊎_map (inl p) f = inl p
⊎_map (inr q) f = inr (f q)

swap : {P Q R S : Type 0} → (Q → R ⊎ S) → P ⊎ Q → R ⊎ (P ⊎ S)
swap f (inl p) = inr (inl p)
swap f (inr q) = elim (f q) [ inl r ↦ inl r | inr s ↦ inr (inr s) ]

module _ {A : Type 0} (before : A → A → Bool) where
  unfoldable pub insert_sorted : A → List A → List A
  insert_sorted x [] = x ∷ []
  insert_sorted x (y ∷ ys) =
      let later = y ∷ insert_sorted x ys in if before x y then x ∷ y ∷ ys else later

  unfoldable pub sorted : List A → List A
  unfolding insert_sorted
  sorted [] = []
  sorted (x ∷ xs) = insert_sorted x (sorted xs)

  pub All-insert_sorted :
      (P : A → Type 0) (x : A) (ys : List A) → P x → All P ys → All P (insert_sorted x ys)
  unfolding insert_sorted
  All-insert_sorted P x [] p h = (p, tt)
  All-insert_sorted P x (y ∷ ys) p (q, h) = elim (Bool-cases (before x y)) [
    | inl first ↦ rw first (p, (q, h))
    | inr later ↦ rw later (q, All-insert_sorted P x ys p h)
  ]

  pub All-sorted : (P : A → Type 0) (xs : List A) → All P xs → All P (sorted xs)
  unfolding sorted
  All-sorted P [] h = tt
  All-sorted P (x ∷ xs) (p, h) = All-insert_sorted P x (sorted xs) p (All-sorted P xs h)

  Any-insert_sorted_self : (P : A → Type 0) (x : A) (ys : List A) → P x → Any P (insert_sorted x ys)
  unfolding insert_sorted
  Any-insert_sorted_self P x [] p = inl p
  Any-insert_sorted_self P x (y ∷ ys) p = elim (Bool-cases (before x y)) [
    | inl first ↦ rw first (inl p)
    | inr later ↦ rw later (inr (Any-insert_sorted_self P x ys p))
  ]

  Any-insert_sorted : (P : A → Type 0) (x : A) (ys : List A) → Any P ys → Any P (insert_sorted x ys)
  unfolding insert_sorted
  Any-insert_sorted P x [] h = absurd h
  Any-insert_sorted P x (y ∷ ys) h = elim (Bool-cases (before x y)) [
    | inl first ↦ rw first (inr h)
    | inr later ↦ rw later (⊎_map h (λ m. Any-insert_sorted P x ys m))
  ]

  -- What some item has, some item of the sorted list has.
  pub Any-sorted : (P : A → Type 0) (xs : List A) → Any P xs → Any P (sorted xs)
  unfolding sorted
  Any-sorted P [] h = h
  Any-sorted P (x ∷ xs) (inl p) = Any-insert_sorted_self P x (sorted xs) p
  Any-sorted P (x ∷ xs) (inr h) = Any-insert_sorted P x (sorted xs) (Any-sorted P xs h)

  pub In-sorted : (a : A) (xs : List A) → In a xs → In a (sorted xs)
  In-sorted a xs h = Any-sorted (λ x. a ≡ x) xs h

  Any-insert_sorted_of :
      (P : A → Type 0) (x : A) (ys : List A) → Any P (insert_sorted x ys) → P x ⊎ Any P ys
  unfolding insert_sorted
  Any-insert_sorted_of P x [] h = h
  Any-insert_sorted_of P x (y ∷ ys) h = elim (Bool-cases (before x y)) [
    | inl first ↦ rw first at h
    | inr later ↦ swap (Any-insert_sorted_of P x ys) (rw later at h)
  ]

  -- What some item of the sorted list has, some item has.
  pub Any-sorted_of : (P : A → Type 0) (xs : List A) → Any P (sorted xs) → Any P xs
  unfolding sorted
  Any-sorted_of P [] h = h
  Any-sorted_of P (x ∷ xs) h = ⊎_map (Any-insert_sorted_of P x (sorted xs) h) (Any-sorted_of P xs)

  -- Every item may stand before all items behind it.
  abbrev pub IsSorted : List A → Type 0
  IsSorted [] = Unit
  IsSorted (x ∷ xs) = All (λ y. before x y ≡ true) xs × IsSorted xs

  module _ (total : (x y : A) → before x y ≡ false → before y x ≡ true)
      (trans : (x y z : A) → before x y ≡ true → before y z ≡ true → before x z ≡ true) where
    All-trans :
        (x y : A) (ys : List A)
        → before x y ≡ true
        → All (λ z. before y z ≡ true) ys
        → All (λ z. before x z ≡ true) ys
    All-trans x y [] h k = tt
    All-trans x y (z ∷ ys) h (p, k) = (trans x y z h p, All-trans x y ys h k)

    insert_sorted-IsSorted : (x : A) (ys : List A) → IsSorted ys → IsSorted (insert_sorted x ys)
    unfolding insert_sorted
    insert_sorted-IsSorted x [] h = (tt, tt)
    insert_sorted-IsSorted x (y ∷ ys) (a, h) = elim (Bool-cases (before x y)) [
      | inl first ↦ rw first ((first, All-trans x y ys first a), (a, h))
      | inr later ↦ rw later (
        All-insert_sorted (λ z. before y z ≡ true) x ys (total x y later) a,
        insert_sorted-IsSorted x ys h,
      )
    ]

    pub sorted-IsSorted : (xs : List A) → IsSorted (sorted xs)
    unfolding sorted
    sorted-IsSorted [] = tt
    sorted-IsSorted (x ∷ xs) = insert_sorted-IsSorted x (sorted xs) (sorted-IsSorted xs)
