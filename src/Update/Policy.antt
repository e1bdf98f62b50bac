-- ===== src/Update/Policy.antt =====
-- The two places that judge a manifest: `UpdateChecker.evaluate` of update_manifest.py and
-- `_validate_manifest_policy` of update_engine.py.
use openai_free_credit_track.Base.{Bool, true, false}
use openai_free_credit_track.Base.Text.{Text}
use openai_free_credit_track.Update.{UpdateStatus, update_available, incompatible_updater}

-- The checker calls the manifest an update, of this updater or of a newer one.
abbrev pub is_update : UpdateStatus → Bool
is_update update_available = true
is_update incompatible_updater = true
is_update _ = false
