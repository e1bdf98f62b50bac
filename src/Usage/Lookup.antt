-- ===== src/Usage/Lookup.antt =====
-- A model that is found belongs to a group of the catalog.
use openai_free_credit_track.Base.{
  ℕ, ◌≡◌, ◌∙◌, inl, inr, refl, subst, Bool, some, List, [], ◌∷◌, Bool-cases, Option-cases, In,
}
use openai_free_credit_track.Base.Text.{Text, text_eq}
use openai_free_credit_track.Usage.{
  Model, Catalog, Entry, Index, index_aliases, index_models, index_groups, build_index, get_entry,
  find_model, clean_model_name,
}

abbrev pub keys_of : {A : Type 0} → List (Text × A) → List Text
keys_of [] = []
keys_of ((k, a) ∷ rest) = k ∷ keys_of rest

abbrev Indexed : {P : Type 0} → List Text → Index P → Type 0
Indexed keys [] = Unit
Indexed keys ((k, e) ∷ rest) = In e.group keys × Indexed keys rest

index_aliases-Indexed :
    {P : Type 0} (keys : List Text) (e : Entry P) (aliases : List Text) (index : Index P)
    → In e.group keys
    → Indexed keys index
    → Indexed keys (index_aliases e aliases index)
unfolding index_aliases
index_aliases-Indexed keys e [] index m h = h
index_aliases-Indexed keys e (a ∷ rest) index m h =
    index_aliases-Indexed keys e rest ((a, e) ∷ index) m (m, h)

index_models-Indexed :
    {P : Type 0} (keys : List Text) (group : Text) (models : List (Model P)) (index : Index P)
    → In group keys
    → Indexed keys index
    → Indexed keys (index_models group models index)
unfolding index_models
index_models-Indexed keys group [] index m h = h
index_models-Indexed keys group (x ∷ rest) index m h =
    index_models-Indexed keys group rest _ m
      (index_aliases-Indexed keys (record { group = group; model = x }) x.aliases _ m (m, h))

index_groups-Indexed :
    {P : Type 0} (keys : List Text) (catalog : Catalog P) (index : Index P)
    → ((k : Text) → In k (keys_of catalog) → In k keys)
    → Indexed keys index
    → Indexed keys (index_groups catalog index)
unfolding index_groups
index_groups-Indexed keys [] index m h = h
index_groups-Indexed keys ((group, models) ∷ rest) index m h =
    index_groups-Indexed keys rest (index_models group models index) (λ k n. m k (inr n))
      (index_models-Indexed keys group models index (m group (inl refl)) h)

get_entry-Indexed :
    {P : Type 0} (keys : List Text) (name : Text) (index : Index P) (e : Entry P)
    → Indexed keys index
    → get_entry name index ≡ some e
    → In e.group keys
unfolding get_entry
get_entry-Indexed keys name [] e h f = absurd cc
get_entry-Indexed keys name ((k, x) ∷ rest) e (m, h) f = elim (Bool-cases (text_eq k name)) [
  | inl same ↦
      let found = rw same at f in
      let here : x ≡ e = cc in subst (λ (y : Entry _). In y.group keys) here m
  | inr other ↦ get_entry-Indexed keys name rest e h (rw other at f)
]

pub find_model-In :
    {P : Type 0} (is_digit : ℕ → Bool) (name : Text) (catalog : Catalog P) (e : Entry P)
    → find_model is_digit name catalog ≡ some e
    → In e.group (keys_of catalog)
unfolding find_model
find_model-In is_digit name catalog e h =
    let indexed = index_groups-Indexed (keys_of catalog) catalog [] (λ k m. m) tt in
    elim (Option-cases (get_entry name (build_index catalog))) [
      | inr (x, f) ↦
          let found = rw (f, find_model) at h in
          get_entry-Indexed (keys_of catalog) name (build_index catalog) e indexed (f ∙ found)
      | inl f ↦
          get_entry-Indexed (keys_of catalog) (clean_model_name is_digit name) (build_index catalog)
            e indexed (rw (f, find_model) at h)
    ]
