-- ===== src/SemVer/RoundTrip.antt =====
-- `parse` reads back what `__str__` prints, and accepts only versions that `__str__` can print.
use mathlib.Core.Option
use openai_free_credit_track.Base.{
  ℕ, ◌<◌, ◌≡◌, ◌≢◌, refl, ap, ◌∙◌, inl, inr, List, [], ◌∷◌, ◌++◌, All, arith, true, false, Bool,
  Bool-cases, all, not, ◌==◌, append-nil, subst, Option, some, none, is_empty,
}
use openai_free_credit_track.Base.Text.{Text}
use openai_free_credit_track.SemVer.{Unicode, SemVer}
use openai_free_credit_track.SemVer.Decimal.{int-decimal, decimal-IsNumeral, is_number_of_IsNumeral}
use openai_free_credit_track.SemVer.Grammar.{
  dot, plus, minus, span, split_dots, join_dots, is_number, is_pre_identifier, is_build_identifier,
  is_alphanumeric, then_alphanumeric, match_build, match_suffix, match_number, full_match,
  after_dot, Groups, nonempty, identifiers, ◌>>=◌, parse, decimal, suffix, str,
}

span-stop :
    (p : ℕ → Bool) (a : Text) (c : ℕ) (b : Text)
    → all p a ≡ true
    → p c ≡ false
    → span p (a ++ (c ∷ b)) ≡ (a, c ∷ b)
unfolding span
span-stop p [] c b h k = rw k
span-stop p (d ∷ a) c b h k = ground (arith, span-stop p a c b)

span-all : (p : ℕ → Bool) (a : Text) → all p a ≡ true → span p a ≡ (a, [])
unfolding span
span-all p [] h = refl
span-all p (d ∷ a) h = ground (arith, span-all p a)

-- No character of the text is a dot, or a plus.
abbrev IsPart : Text → Type 0
IsPart s = All (λ c. (c ≢ dot) × (c ≢ plus)) s

split_dots-part : (x : Text) → IsPart x → split_dots x ≡ x ∷ []
unfolding split_dots
split_dots-part [] h = refl
split_dots-part (c ∷ x) ((d, _), h) = ground (arith, split_dots-part x h)

split_dots-append : (x s : Text) → IsPart x → split_dots (x ++ (dot ∷ s)) ≡ x ∷ split_dots s
unfolding split_dots
split_dots-append [] s h = refl
split_dots-append (c ∷ x) s ((d, _), h) = ground (arith, split_dots-append x s h)

split_dots-join_dots :
    (x : Text) (xs : List Text) → All IsPart (x ∷ xs) → split_dots (join_dots (x ∷ xs)) ≡ x ∷ xs
unfolding join_dots
split_dots-join_dots x [] (h, _) = split_dots-part x h
split_dots-join_dots x (y ∷ ys) (h, hs) =
    split_dots-append x (join_dots (y ∷ ys)) h ∙ ap (λ r. x ∷ r) (split_dots-join_dots y ys hs)

-- Inversion of a chain of matches that succeeds.
>>=-eq-some {ℓ κ} :
    {A : Type ℓ} {B : Type κ} (m : Option A) (f : A → Option B) {b : B}
    → (m >>= f) ≡ some b
    → (a : A) × (m ≡ some a) × (f a ≡ some b)
>>=-eq-some none f h = cc
>>=-eq-some (some a) f h = (a, refl, h)

some-eq {ℓ} : {A : Type ℓ} {a b : A} → some a ≡ some b → a ≡ b
some-eq h = cc

abbrev is_not_plus : ℕ → Bool
is_not_plus c = not (c == plus)

part-no_plus : (x : Text) → IsPart x → all is_not_plus x ≡ true
part-no_plus [] h = refl
part-no_plus (c ∷ x) ((_, p), h) = ground (arith, part-no_plus x h)

all-append : (p : ℕ → Bool) (x y : Text) → all p x ≡ true → all p y ≡ true → all p (x ++ y) ≡ true
all-append p [] y h k = k
all-append p (c ∷ x) y h k = ground (arith, all-append p x y)

join_dots-no_plus :
    (x : Text) (xs : List Text) → All IsPart (x ∷ xs) → all is_not_plus (join_dots (x ∷ xs)) ≡ true
unfolding join_dots
join_dots-no_plus x [] (h, _) = part-no_plus x h
join_dots-no_plus x (y ∷ ys) (h, hs) =
    all-append is_not_plus x (dot ∷ join_dots (y ∷ ys)) (part-no_plus x h)
      (join_dots-no_plus y ys hs)

IsPart-alphanumeric : (s : Text) → all is_alphanumeric s ≡ true → IsPart s
IsPart-alphanumeric [] h = tt
IsPart-alphanumeric (c ∷ s) h = ((ground arith, ground arith), IsPart-alphanumeric s (ground arith))

abbrev IsFilled : Text → Type 0
IsFilled s = is_empty s ≡ false

nonempty-filled : (xs : List Text) → All IsFilled xs → nonempty xs ≡ xs
unfolding nonempty
nonempty-filled [] h = refl
nonempty-filled (x ∷ xs) (f, h) = ground (arith, nonempty-filled xs h)

is_build_identifier-IsPart : (s : Text) → is_build_identifier s ≡ true → IsPart s × IsFilled s
unfolding is_build_identifier
is_build_identifier-IsPart s h = (IsPart-alphanumeric s (ground arith), ground arith)

module _ (u : Unicode) where
  decimal_ne : (c : ℕ) → u.is_decimal c ≡ true → (c ≢ dot) × (c ≢ plus)
  decimal_ne c h =
      let d = u.ascii_other dot (omega arith) (inl (omega arith)) in
      let p = u.ascii_other plus (omega arith) (inl (omega arith)) in
      (λ e. ground (arith, d, e), λ e. ground (arith, p, e))

  IsPart-decimal : (s : Text) → all u.is_decimal s ≡ true → IsPart s
  IsPart-decimal [] h = tt
  IsPart-decimal (c ∷ s) h = (decimal_ne c (ground arith), IsPart-decimal s (ground arith))

  is_number-IsPart : (s : Text) → is_number u s ≡ true → IsPart s × IsFilled s
  unfolding is_number
  is_number-IsPart [] h = absurd (ground arith)
  is_number-IsPart (c ∷ []) h = (((ground arith, ground arith), tt), refl)
  is_number-IsPart (c ∷ d ∷ s) h =
      (((ground arith, ground arith), IsPart-decimal (d ∷ s) (ground arith)), refl)

  span-IsPart : (s : Text) → IsPart (span u.is_decimal s).1 → IsPart s
  unfolding span
  span-IsPart [] h = tt
  span-IsPart (c ∷ s) h = elim (Bool-cases (u.is_decimal c)) [
    | inl digit ↦ (decimal_ne c digit, span-IsPart s (rw digit at h))
    | inr other ↦ rw other at h
  ]

  span-nil : (span u.is_decimal []).1 ≡ []
  unfolding span
  span-nil = refl

  then_alphanumeric-IsPart : (s : Text) → then_alphanumeric s ≡ true → IsPart s
  then_alphanumeric-IsPart [] h = tt
  then_alphanumeric-IsPart (c ∷ s) h =
      ((ground arith, ground arith), IsPart-alphanumeric s (ground arith))

  IsFilled-span : (s : Text) → then_alphanumeric (span u.is_decimal s).1 ≡ true → IsFilled s
  unfolding span
  IsFilled-span [] h = absurd (ground arith)
  IsFilled-span (c ∷ s) h = refl

  is_pre_identifier-IsPart : (s : Text) → is_pre_identifier u s ≡ true → IsPart s × IsFilled s
  unfolding is_pre_identifier
  is_pre_identifier-IsPart s h = elim (Bool-cases (is_number u s)) [
    | inl number ↦ is_number-IsPart s number
    | inr other ↦
        let tail : then_alphanumeric (span u.is_decimal s).1 ≡ true = ground arith in
        (
          span-IsPart s (then_alphanumeric-IsPart (span u.is_decimal s).1 tail),
          IsFilled-span s tail,
        )
  ]

-- The identifiers fit the pattern's groups.
pub record IsPrintable (u : Unicode) (v : SemVer) : Type 0 where
  pub prerelease : All (λ x. is_pre_identifier u x ≡ true) v.prerelease
  pub build : All (λ x. is_build_identifier x ≡ true) v.build

abbrev group : List Text → Option Text
group [] = none
group (x ∷ xs) = some (join_dots (x ∷ xs))

abbrev AreParts : List Text → Type 0
AreParts xs = All (λ x. IsPart x × IsFilled x) xs

parts : (xs : List Text) → AreParts xs → All IsPart xs × All IsFilled xs
parts [] h = (tt, tt)
parts (x ∷ xs) ((p, f), h) = let (ps, fs) = parts xs h in ((p, ps), (f, fs))

build-AreParts : (xs : List Text) → All (λ x. is_build_identifier x ≡ true) xs → AreParts xs
build-AreParts [] h = tt
build-AreParts (x ∷ xs) (k, h) = (is_build_identifier-IsPart x k, build-AreParts xs h)

identifiers-group : (xs : List Text) → AreParts xs → identifiers (group xs) ≡ xs
unfolding identifiers
identifiers-group [] h = unfold nonempty split_dots in refl
identifiers-group (x ∷ xs) h =
    let (ps, fs) = parts (x ∷ xs) h in
    ap nonempty (split_dots-join_dots x xs ps) ∙ nonempty-filled (x ∷ xs) fs

all_of_All : (p : Text → Bool) (xs : List Text) → All (λ x. p x ≡ true) xs → all p xs ≡ true
all_of_All p [] h = refl
all_of_All p (x ∷ xs) (k, h) = rw k (all_of_All p xs h)

match_build-suffix :
    (xs : List Text)
    → All (λ x. is_build_identifier x ≡ true) xs
    → match_build (suffix plus xs) ≡ some (group xs)
unfolding match_build suffix
match_build-suffix [] h = refl
match_build-suffix (x ∷ xs) h =
    let whole = split_dots-join_dots x xs (parts (x ∷ xs) (build-AreParts (x ∷ xs) h)).0 in
    rw whole (rw (all_of_All is_build_identifier (x ∷ xs) h) refl)

module _ (u : Unicode) where
  pre-AreParts : (xs : List Text) → All (λ x. is_pre_identifier u x ≡ true) xs → AreParts xs
  pre-AreParts [] h = tt
  pre-AreParts (x ∷ xs) (k, h) = (is_pre_identifier-IsPart u x k, pre-AreParts xs h)

  span-suffix :
      (a : Text) (bs : List Text)
      → all is_not_plus a ≡ true
      → span is_not_plus (a ++ suffix plus bs) ≡ (a, suffix plus bs)
  unfolding suffix
  span-suffix a [] h = rw append-nil (span-all is_not_plus a h)
  span-suffix a (b ∷ bs) h = span-stop is_not_plus a plus (join_dots (b ∷ bs)) h refl

  match_suffix-suffix :
      (xs ys : List Text)
      → All (λ x. is_pre_identifier u x ≡ true) xs
      → All (λ x. is_build_identifier x ≡ true) ys
      → match_suffix u (suffix minus xs ++ suffix plus ys) ≡ some (group xs, group ys)
  unfolding match_suffix suffix
  match_suffix-suffix [] [] h k = refl
  match_suffix-suffix [] (y ∷ ys) h k =
      ap (Option.map (λ b. (none, b))) (match_build-suffix (y ∷ ys) k)
  match_suffix-suffix (x ∷ xs) ys h k =
      let ps = (parts (x ∷ xs) (pre-AreParts (x ∷ xs) h)).0 in
      let cut = span-suffix (join_dots (x ∷ xs)) ys (join_dots-no_plus x xs ps) in
      let found = match_build-suffix ys k in
      let whole = split_dots-join_dots x xs ps in
      let valid = all_of_All (is_pre_identifier u) (x ∷ xs) h in
      rw (cut, whole) (rw (valid, found) refl)

  abbrev Stops : Text → Type 0
  Stops [] = Unit
  Stops (c ∷ s) = u.is_decimal c ≡ false

  match_number-decimal :
      (n : ℕ) (rest : Text)
      → Stops rest
      → match_number u (decimal n ++ rest) ≡ some (decimal n, rest)
  unfolding match_number
  match_number-decimal n [] h =
      let (number, digits) = is_number_of_IsNumeral u (decimal n) (decimal-IsNumeral n) in
      rw (append-nil (decimal n), span-all u.is_decimal (decimal n) digits) (rw number refl)
  match_number-decimal n (c ∷ rest) h =
      let (number, digits) = is_number_of_IsNumeral u (decimal n) (decimal-IsNumeral n) in
      rw (span-stop u.is_decimal (decimal n) c rest digits h) (rw number refl)

  ascii_stop : (c : ℕ) → c < 48 → u.is_decimal c ≡ false
  ascii_stop c h = u.ascii_other c (omega arith) (inl h)

  suffix-Stops : (xs ys : List Text) → Stops (suffix minus xs ++ suffix plus ys)
  unfolding suffix
  suffix-Stops [] [] = tt
  suffix-Stops [] (y ∷ ys) = ascii_stop plus (omega arith)
  suffix-Stops (x ∷ xs) ys = ascii_stop minus (omega arith)

  abbrev groups : SemVer → Groups
  groups v = record {
    major = decimal v.major;
    minor = decimal v.minor;
    patch = decimal v.patch;
    prerelease = group v.prerelease;
    build = group v.build;
  }

  full_match-str : (v : SemVer) → IsPrintable u v → full_match u (str v) ≡ some (groups v)
  unfolding full_match after_dot str
  full_match-str v h =
      let tail = suffix minus v.prerelease ++ suffix plus v.build in
      let stop = ascii_stop dot (omega arith) in
      rw
        (match_number-decimal v.major (dot ∷ decimal v.minor ++ (dot ∷ decimal v.patch ++ tail))
          stop)
        (rw (match_number-decimal v.minor (dot ∷ decimal v.patch ++ tail) stop) (
          rw (match_number-decimal v.patch tail (suffix-Stops v.prerelease v.build))
            (rw (match_suffix-suffix v.prerelease v.build h.prerelease h.build) refl)))

  -- Parsing the printed form of a version whose identifiers fit the pattern gives the version back.
  pub parse-str : (v : SemVer) → IsPrintable u v → parse u (str v) ≡ some v
  unfolding parse
  parse-str v h = rw (full_match-str v h) (
      ground (
        arith,
        int-decimal u v.major,
        int-decimal u v.minor,
        int-decimal u v.patch,
        identifiers-group v.prerelease (pre-AreParts v.prerelease h.prerelease),
        identifiers-group v.build (build-AreParts v.build h.build),
      ))

  abbrev FitsGroup : (Text → Bool) → Option Text → Type 0
  FitsGroup p none = Unit
  FitsGroup p (some s) = all p (split_dots s) ≡ true

  nonempty-All :
      (p : Text → Bool) (xs : List Text) → all p xs ≡ true → All (λ x. p x ≡ true) (nonempty xs)
  unfolding nonempty
  nonempty-All p [] h = tt
  nonempty-All p ([] ∷ xs) h = nonempty-All p xs (ground arith)
  nonempty-All p ((c ∷ x) ∷ xs) h = (ground arith, nonempty-All p xs (ground arith))

  identifiers-All :
      (p : Text → Bool) (g : Option Text) → FitsGroup p g → All (λ x. p x ≡ true) (identifiers g)
  unfolding identifiers
  identifiers-All p none h = unfold nonempty split_dots in tt
  identifiers-All p (some s) h = nonempty-All p (split_dots s) h

  match_build-FitsGroup :
      (s : Text) (b : Option Text) → match_build s ≡ some b → FitsGroup is_build_identifier b
  unfolding match_build
  match_build-FitsGroup [] b h = ground arith
  match_build-FitsGroup (c ∷ s) b h = ground arith

  match_suffix-FitsGroup :
      (s : Text) (g b : Option Text)
      → match_suffix u s ≡ some (g, b)
      → FitsGroup (is_pre_identifier u) g × FitsGroup is_build_identifier b
  unfolding match_suffix
  match_suffix-FitsGroup [] g b h = ground arith
  match_suffix-FitsGroup (c ∷ s) g b h = ground (
    arith,
    match_build-FitsGroup (c ∷ s) b,
    match_build-FitsGroup (span (λ d. not (d == plus)) s).1 b,
  )

  full_match-FitsGroup :
      (s : Text) (g : Groups)
      → full_match u s ≡ some g
      → FitsGroup (is_pre_identifier u) g.prerelease × FitsGroup is_build_identifier g.build
  unfolding full_match
  full_match-FitsGroup s g h =
      let ((major, s1), _, h1) = >>=-eq-some (match_number u s) _ h in
      let (s2, _, h2) = >>=-eq-some (after_dot s1) _ h1 in
      let ((minor, s3), _, h3) = >>=-eq-some (match_number u s2) _ h2 in
      let (s4, _, h4) = >>=-eq-some (after_dot s3) _ h3 in
      let ((patch, s5), _, h5) = >>=-eq-some (match_number u s4) _ h4 in
      let ((pre, build), fits, h6) = >>=-eq-some (match_suffix u s5) _ h5 in
      subst
        (λ (k : Groups).
          FitsGroup (is_pre_identifier u) k.prerelease × FitsGroup is_build_identifier k.build)
        (some-eq h6) (match_suffix-FitsGroup s5 pre build fits)

  -- Every version that `parse` accepts has identifiers that fit the pattern.
  parse-IsPrintable : (s : Text) (v : SemVer) → parse u s ≡ some v → IsPrintable u v
  unfolding parse
  parse-IsPrintable s v h =
      let (g, matched, same) = (Option.map-eq-some_iff _ _).0 h in
      let (pre, build) = full_match-FitsGroup s g matched in
      rw (← same) (record {
        prerelease = identifiers-All (is_pre_identifier u) g.prerelease pre;
        build = identifiers-All is_build_identifier g.build build;
      })

  -- Printing an accepted version and parsing it again gives that version: no field is lost.
  pub parse-str-parse : (s : Text) (v : SemVer) → parse u s ≡ some v → parse u (str v) ≡ some v
  parse-str-parse s v h = parse-str v (parse-IsPrintable s v h)
