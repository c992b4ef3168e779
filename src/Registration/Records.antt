-- ===== src/Registration/Records.antt =====
-- `SqlDatasetRecords` (app/app/infrastructure/securities/dataset_records.py): the table of data sets.
use info_backend.Prelude.{
  ℕ, Bool, ◌&&◌, Option, none, some, List, [], ◌∷◌, any, find?, filter_by, take, update, Text,
  codes, text_eq, ◌==◌, leb, if◌then◌else◌,
}
use info_backend.SecurityCode.{SecurityCode}
use info_backend.Registration.Registrar.{DatasetRecord}

abbrev pub has_record_id : ℕ → DatasetRecord → Bool
has_record_id id r = r.record_id == id

-- `get`
unfoldable pub get : ℕ → List DatasetRecord → Option DatasetRecord
get id rows = find? (has_record_id id) rows

abbrev pub published : Text
published = codes "published"

abbrev is_published_for : Text → DatasetRecord → Bool
is_published_for code r = text_eq r.security_code code && text_eq r.status published

abbrev later : DatasetRecord → Option DatasetRecord → DatasetRecord
later r none = r
later r (some other) = if leb other.built_at r.built_at then r else other

unfoldable pub newest : List DatasetRecord → Option DatasetRecord
newest [] = none
newest (r ∷ rows) = some (later r (newest rows))

-- `latest_published`
unfoldable pub latest_published : SecurityCode → List DatasetRecord → Option DatasetRecord
unfolding newest
latest_published code rows = newest (filter_by (is_published_for code.code) rows)

-- A write to the row of an id; `none` is `dataset_record_missing`.
abbrev pub written :
    (DatasetRecord → DatasetRecord) → ℕ → List DatasetRecord → Option (List DatasetRecord)
written f id rows =
    if any (has_record_id id) rows then some (update (has_record_id id) f rows) else none

unfoldable pub registered : ℕ → DatasetRecord → DatasetRecord
registered now r = record r { registered_at = some now; registration_error = none }

unfoldable pub failed_with : Text → DatasetRecord → DatasetRecord
failed_with code r = record r { registration_error = some (take 80 code) }

unfoldable pub mark_registered : ℕ → ℕ → List DatasetRecord → Option (List DatasetRecord)
unfolding registered
mark_registered now id rows = written (registered now) id rows

unfoldable pub mark_registration_failed :
    Text → ℕ → List DatasetRecord → Option (List DatasetRecord)
unfolding failed_with
mark_registration_failed code id rows = written (failed_with code) id rows
