-- ===== src/Locks/Owning.antt =====
-- What a call of `acquire` does to the lock file and to the lock of a process.
use openai_free_credit_track.Base.{
  ℕ, zero, suc, ◌≡◌, ◌⊎◌, inl, inr, refl, sym, ◌∙◌, subst, Bool, true, false, Option, some, none,
  ◌==◌, ==_iff, arith, if◌then◌else◌, Bool-cases,
}
use openai_free_credit_track.Locks.{
  Payload, LockFile, Machine, FileInstanceLock, read_existing, is_stale, remove_if_unchanged,
  new_file, acquire_loop,
}

abbrev pub set_at : {A : Type 0} → ℕ → A → (ℕ → A) → ℕ → A
set_at i v f q = if q == i then v else f q

-- The file names the process and its token.
abbrev pub Names : Option LockFile → ℕ → ℕ → Type 0
Names file i t =
    (f : LockFile) × (file ≡ some f)
    × (read_existing f ≡ some (record { pid = i; owner_token = t }))

acquire_loop-held :
    (n : ℕ) (m : Machine) (token signature : ℕ) (l : FileInstanceLock) (f : LockFile) (p : Payload)
    → read_existing f ≡ some p
    → m.is_alive p.pid ≡ true
    → acquire_loop n m token signature l (some f) ≡ (l, some f, false)
unfolding acquire_loop is_stale
acquire_loop-held zero m token signature l f p e a = refl
acquire_loop-held (suc n) m token signature l f p e a =
    let live : is_stale m f ≡ false = rw (e, is_stale) (rw a refl) in rw (live, acquire_loop) refl

abbrev pub Acquired :
    ℕ → ℕ → ℕ → FileInstanceLock → FileInstanceLock × Option LockFile × Bool → Type 0
Acquired now token signature l (l', file, done) =
    (l'.pid ≡ l.pid)
    × (((l'.owner_token ≡ none) × (done ≡ false))
        ⊎ ((l'.owner_token ≡ some token)
            × (file ≡ some (new_file l.pid token signature now))
            × (done ≡ true)))

pub acquire_loop-Acquired :
    (n : ℕ) (m : Machine) (token signature : ℕ) (l : FileInstanceLock) (file : Option LockFile)
    → l.owner_token ≡ none
    → Acquired m.now token signature l (acquire_loop n m token signature l file)
unfolding acquire_loop
acquire_loop-Acquired zero m token signature l file e = (refl, inl (e, refl))
acquire_loop-Acquired (suc n) m token signature l none e = (refl, inr (refl, refl, refl))
acquire_loop-Acquired (suc n) m token signature l (some f) e = elim (Bool-cases (is_stale m f)) [
  | inr live ↦ rw (live, acquire_loop) (refl, inl (e, refl))
  | inl stale ↦ elim (Bool-cases (remove_if_unchanged f (some f)).1) [
    | inl removed ↦
        rw (stale, removed, acquire_loop)
          (acquire_loop-Acquired n m token signature (record l { stale_recovered = true })
            (remove_if_unchanged f (some f)).0 e)
    | inr kept ↦ rw (stale, kept, acquire_loop) (refl, inl (e, refl))
  ]
]

pub set_at_self : {A : Type 0} (i : ℕ) (v : A) (f : ℕ → A) → set_at i v f i ≡ v
set_at_self i v f = ground arith

pub set_at-other :
    {A : Type 0} (i j : ℕ) (v : A) (f : ℕ → A) → (j == i) ≡ false → set_at i v f j ≡ f j
set_at-other i j v f h = rw h refl

-- A property of every lock holds after a change of one of them.
pub set_at-all :
    {A : Type 0} (P : ℕ → A → Type 0) (i : ℕ) (v : A) (f : ℕ → A)
    → P i v
    → ((j : ℕ) → (j == i) ≡ false → P j (f j))
    → (j : ℕ) → P j (set_at i v f j)
set_at-all P i v f self others j = elim (Bool-cases (j == i)) [
  | inl same ↦
      let e = (==_iff j i).0 same in
      subst (λ k. P k (set_at i v f k)) (sym e) (subst (P i) (sym (set_at_self i v f)) self)
  | inr other ↦ subst (P j) (sym (set_at-other i j v f other)) (others j other)
]

-- What the file owes to one process and its lock.
abbrev pub Sound : Machine → Option LockFile → ℕ → FileInstanceLock → Type 0
Sound m file j l =
    (l.pid ≡ j) × ((t : ℕ) → m.is_alive j ≡ true → l.owner_token ≡ some t → Names file j t)

pub some_inj : {A : Type 0} {a b : A} → some a ≡ some b → a ≡ b
some_inj h = cc

pub Sound-Acquired :
    (m : Machine) (i token signature : ℕ) (l : FileInstanceLock) (file : Option LockFile)
    (r : FileInstanceLock × Option LockFile × Bool)
    → l.pid ≡ i
    → Acquired m.now token signature l r
    → Sound m r.1 i r.0
unfolding read_existing
Sound-Acquired m i token signature l file (l', left, done) own (kept, inl (e, d)) =
    (kept ∙ own, λ t a o. absurd (let bad : none ≡ some t = cc in cc))
Sound-Acquired m i token signature l file (l', left, done) own (kept, inr (e, f, d)) = (
  kept ∙ own,
  λ t a o.
      let same : token ≡ t = some_inj (sym e ∙ o) in
      (new_file l.pid token signature m.now, f, ground arith),
)

pub Sound-acquire_loop_other :
    (n : ℕ) (m : Machine) (j token signature : ℕ) (l k : FileInstanceLock) (file : Option LockFile)
    → Sound m file j k
    → Sound m (acquire_loop n m token signature l file).1 j k
Sound-acquire_loop_other n m j token signature l k file (own, names) = (
  own,
  λ t a o.
      let (f, e, p) = names t a o in
      let held =
        acquire_loop-held n m token signature l f (record { pid = j; owner_token = t }) p a in
      (f, rw (e, held) refl, p),
)
