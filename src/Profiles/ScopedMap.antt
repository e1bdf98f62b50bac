-- ===== src/Profiles/ScopedMap.antt =====
-- The scoped repository answers as a map from pairs does, whatever is called in whatever order.
use openai_free_credit_track.Base.{
  length, ◌≡◌, inl, inr, refl, sym, ap, ap₂, ◌∙◌, true, false, Option, some, none, List, [], ◌∷◌,
  ◌&&◌, if◌then◌else◌, Bool-cases, arith,
}
use openai_free_credit_track.Base.Text.{Text, text_eq, text_eq→eq}
use openai_free_credit_track.Profiles.Scoped.{
  is_record_id, Records, is_some, found, put, get, delete, delete_profile, assign, drop, without,
}
use openai_free_credit_track.Profiles.ScopedCount.{
  IsDistinct, length-assign, length-drop, assign-IsDistinct, drop-IsDistinct, rows_of,
  rows_of-assign, rows_of-drop, rows_of-without,
}
use openai_free_credit_track.Profiles.Scope.{view, view-drop, view-put, view-delete}
use openai_free_credit_track.Profiles.ScopedCalls.{
  Command, put_command, get_command, delete_command, delete_profile_command, deleted, removed, Map,
  valued, step, map_answer, at_after, size_after, map_after, answers, map_answers,
}

-- The records hold what the map holds.
abbrev pub Holds : {V : Type 0} → Records V → Map V → Type 0
Holds records m = (q s : Text) → view records q s ≡ m.at q s

-- The records under a profile are as many as the map has, and no two of them have one key.
abbrev pub Counts : {V : Type 0} → Records V → Map V → Type 0
Counts records m =
    (q : Text) → (length (rows_of q records) ≡ m.size q) × IsDistinct (rows_of q records)

none_of : {V : Type 0} (o : Option V) → is_some o ≡ false → o ≡ none
none_of none h = refl
none_of (some v) h = absurd cc

-- Deleting what is not there changes nothing.
view_absent :
    {V : Type 0} (p r : Text) (records : Records V) (q s : Text)
    → is_some (view records p r) ≡ false
    → view records q s ≡ (if text_eq p q && text_eq r s then none else view records q s)
view_absent p r records q s gone = elim (Bool-cases (text_eq p q && text_eq r s)) [
  | inr other ↦ rw other refl
  | inl same ↦
      let a = text_eq→eq p q (ground arith) in
      let b = text_eq→eq r s (ground arith) in
      rw same (rw (← a, ← b) (none_of (view records p r) gone))
]

step-Holds :
    {V : Type 0} (c : Command V) (records : Records V) (m : Map V)
    → Holds records m
    → Counts records m
    → ((step c records).0 ≡ map_answer c m) × Holds (step c records).1 (map_after c m)
unfolding step map_answer at_after put get delete delete_profile
step-Holds (put_command p r v) records m h n = elim (Bool-cases (is_record_id r)) [
  | inr bad ↦ rw (bad, put) (refl, h)
  | inl good ↦
      rw (good, put)
        (
          refl,
          λ q s.
              view-put p r v records q s
              ∙ ap (λ o. if text_eq p q && text_eq r s then some v else o) (h q s),
        )
]
step-Holds (get_command p r) records m h n = elim (Bool-cases (is_record_id r)) [
  | inr bad ↦ rw (bad, get) (refl, h)
  | inl good ↦ rw (good, get) (ap (λ o. valued (found o)) (h p r), h)
]
step-Holds (delete_command p r) records m h n = elim (Bool-cases (is_record_id r)) [
  | inr bad ↦ rw (bad, delete) (refl, h)
  | inl good ↦ elim (Bool-cases (is_some (view records p r))) [
    | inl there ↦
        rw (good, there, delete)
          (
            ap deleted (sym there ∙ ap is_some (h p r)),
            λ q s.
                view-delete p r records q s
                ∙ ap (λ o. if text_eq p q && text_eq r s then none else o) (h q s),
          )
    | inr gone ↦
        rw (good, gone, delete)
          (
            ap deleted (sym gone ∙ ap is_some (h p r)),
            λ q s.
                view_absent p r records q s gone
                ∙ ap (λ o. if text_eq p q && text_eq r s then none else o) (h q s),
          )
  ]
]
step-Holds (delete_profile_command p) records m h n = (
  ap removed (n p).0,
  λ q s. view-drop p records q s ∙ ap (λ o. if text_eq p q then none else o) (h q s),
)

put-Counts :
    {V : Type 0} (p r : Text) (v : V) (records : Records V) (m : Map V)
    → is_record_id r ≡ true
    → Holds records m
    → Counts records m
    → Counts (assign p (assign r v (rows_of p records)) records) (map_after (put_command p r v) m)
unfolding size_after
put-Counts p r v records m good h n q = elim (Bool-cases (text_eq p q)) [
  | inr other ↦
      rw (rows_of-assign p q (assign r v (rows_of p records)) records) (rw (good, other) (n q))
  | inl same ↦
      let e = text_eq→eq p q same in
      let count = length-assign r v (rows_of p records) in
      let held = ap is_some (h p r) in
      let size = (n p).0 in
      rw (rows_of-assign p q (assign r v (rows_of p records)) records) (
        rw (good, same)
          (rw (← e) (elim (Bool-cases (is_some (m.at p r))) [
            | inl there ↦
                let was = rw (held, there) at count in
                rw there
                  (omega (arith, was, size), assign-IsDistinct r v (rows_of p records) (n p).1)
            | inr new ↦
                let was = rw (held, new) at count in
                rw new (omega (arith, was, size), assign-IsDistinct r v (rows_of p records) (n p).1)
          ])))
]

delete-Counts :
    {V : Type 0} (p r : Text) (records : Records V) (m : Map V)
    → is_record_id r ≡ true
    → is_some (m.at p r) ≡ true
    → Holds records m
    → Counts records m
    → Counts (without p (drop r (rows_of p records)) records) (map_after (delete_command p r) m)
unfolding size_after
delete-Counts p r records m good there h n q = elim (Bool-cases (text_eq p q)) [
  | inr other ↦
      rw (rows_of-without p q (drop r (rows_of p records)) records) (rw (good, other) (n q))
  | inl same ↦
      let e = text_eq→eq p q same in
      let count = length-drop r (rows_of p records) (n p).1 in
      let held = ap is_some (h p r) in
      let was = rw (held, there) at count in
      let size = (n p).0 in
      rw (rows_of-without p q (drop r (rows_of p records)) records) (
        rw (good, same, there)
          (rw (← e) (omega (arith, was, size), drop-IsDistinct r (rows_of p records) (n p).1)))
]

step-Counts :
    {V : Type 0} (c : Command V) (records : Records V) (m : Map V)
    → Holds records m
    → Counts records m
    → Counts (step c records).1 (map_after c m)
unfolding step put get delete delete_profile size_after
step-Counts (put_command p r v) records m h n = elim (Bool-cases (is_record_id r)) [
  | inr bad ↦ rw (bad, put) n
  | inl good ↦
      let kept = put-Counts p r v records m good h n in
      let after = rw good at kept in rw (good, put) after
]
step-Counts (get_command p r) records m h n = n
step-Counts (delete_command p r) records m h n = elim (Bool-cases (is_record_id r)) [
  | inr bad ↦ rw (bad, delete) n
  | inl good ↦
      let held = ap is_some (h p r) in
      elim (Bool-cases (is_some (m.at p r))) [
        | inl there ↦
            let kept = delete-Counts p r records m good there h n in
            let after = rw (good, there) at kept in rw (good, held, there, delete) after
        | inr gone ↦
            rw (good, held, gone, delete)
              (λ q. elim (Bool-cases (text_eq p q)) [
                | inl same ↦ rw same (n q)
                | inr other ↦ rw other (n q)
              ])
      ]
]
step-Counts (delete_profile_command p) records m h n = λ q.
    rw (rows_of-drop p q records) (elim (Bool-cases (text_eq p q)) [
      | inl same ↦ rw same (refl, tt)
      | inr other ↦ rw other (n q)
    ])

-- Whatever sequence of puts, gets and deletions of records and of profiles is made, with record
-- identifiers that are refused included: the scoped repository answers as the map does, from a map
-- that holds under every profile and record what the repository does, and counts under every profile
-- the records that the repository has there, of which no two have one key. Deleting a profile answers
-- with the number of its records.
pub answers-map_answers :
    {V : Type 0} (cs : List (Command V)) (records : Records V) (m : Map V)
    → Holds records m
    → Counts records m
    → answers cs records ≡ map_answers cs m
unfolding answers map_answers
answers-map_answers [] records m h n = refl
answers-map_answers (c ∷ cs) records m h n =
    let (same, after) = step-Holds c records m h n in
    let counted = step-Counts c records m h n in
    let rest = answers-map_answers cs (step c records).1 (map_after c m) after counted in
    ap₂ (λ a xs. a ∷ xs) same rest
