-- ===== src/Json.antt =====
-- What `json.loads` gives, as the Python values that src/quota_monitor tells apart. A dictionary is
-- the list of its entries, whose keys differ.
use openai_free_credit_track.Base.{ℕ, Bool, Option, some, none, if◌then◌else◌}
use openai_free_credit_track.Base.Text.{Text, text_eq}

mutual
  -- An integer below zero is `negative n` for -(n + 1). A float is an opaque number, zero for 0.0.
  pub data Json : Type 0 where
    null : Json
    boolean : Bool → Json
    number negative fraction : ℕ → Json
    text : Text → Json
    array : Items → Json
    object : Fields → Json

  pub data Items : Type 0 where
    no_items : Items
    item : Json → Items → Items

  pub data Fields : Type 0 where
    no_fields : Fields
    field : Text → Json → Fields → Fields

-- `dictionary.get(key)`, where a missing key is told from `None`.
unfoldable pub get_field : Text → Fields → Option Json
get_field key no_fields = none
get_field key (field k v rest) =
    let later = get_field key rest in if text_eq k key then some v else later

-- `dictionary.get(key, default)`
unfoldable pub get_or : Text → Json → Fields → Json
get_or key default fields = elim (get_field key fields) [ none ↦ default | some v ↦ v ]
