-- ===== src/Registration/Service.antt =====
-- `DatasetRegistrationService` (app/app/application/securities/registration_service.py), and the handler
-- `register_security_dataset` of app/app/infrastructure/messaging/delivery_handlers.py.
use info_backend.Prelude.{
  ℕ, Bool, true, false, not, Option, none, some, List, Text, codes, text_eq, if◌then◌else◌,
}
use info_backend.SecurityCode.{SecurityCode, security_code}
use info_backend.Registration.Registrar.{DatasetRecord, RegistrationError, Registrar, configured}
use info_backend.Registration.Registrar
use info_backend.Registration.Records.{
  get, latest_published, published, mark_registered, mark_registration_failed,
}

pub record RegistrationSummary : Type 0 where
  pub record_id : ℕ
  pub dataset_id : Text
  pub data_version : Text
  pub security_code : Text
  pub sha256 : Text
  pub registered : Bool

-- What a call ends with: a summary, a `RegistrationError`, a row that has gone in the meantime, or an
-- invalid code.
pub data Ending : Type 0 where
  succeeded : RegistrationSummary → Ending
  refused : RegistrationError → Ending
  record_missing : Ending
  code_invalid : Ending

-- `others` is what others commit while the knowledge service is asked.
pub record Surroundings : Type 0 where
  pub registrar : Registrar
  pub now : ℕ
  pub digit : ℕ → Bool
  pub others : List DatasetRecord → List DatasetRecord

abbrev pub refuse : Text → Ending
refuse code = refused (record { code = code; retryable = false })

unfoldable pub summary : DatasetRecord → RegistrationSummary
summary r = record {
  record_id = r.record_id;
  dataset_id = r.dataset_id;
  data_version = r.data_version;
  security_code = r.security_code;
  sha256 = r.sha256;
  registered = true;
}

-- The write commits by itself, before the ending.
abbrev pub after_mark :
    Ending → List DatasetRecord → Option (List DatasetRecord) → Ending × List DatasetRecord
after_mark ending rows none = (record_missing, rows)
after_mark ending rows (some marked) = (ending, marked)

unfoldable pub after_register :
    Surroundings
    → DatasetRecord
    → List DatasetRecord
    → Option RegistrationError
    → Ending × List DatasetRecord
unfolding summary mark_registered mark_registration_failed
after_register x r rows none =
    after_mark (succeeded (summary r)) rows (mark_registered x.now r.record_id rows)
after_register x r rows (some e) =
    after_mark (refused e) rows (mark_registration_failed e.code r.record_id rows)

-- `_register`
unfoldable pub register_record :
    Surroundings → DatasetRecord → List DatasetRecord → Ending × List DatasetRecord
unfolding after_register configured
register_record x r rows =
    if not (text_eq r.status published)
    then (refuse (codes "dataset_not_published"), rows)
    else if not (configured x.registrar)
    then (refuse (codes "registrar_not_configured"), rows)
    else after_register x r (x.others rows) (Registrar.register x.registrar r)

unfoldable pub register_found :
    Surroundings → Text → Option DatasetRecord → List DatasetRecord → Ending × List DatasetRecord
unfolding register_record
register_found x code none rows = (refuse code, rows)
register_found x code (some r) rows = register_record x r rows

-- `register`
unfoldable pub register : Surroundings → ℕ → List DatasetRecord → Ending × List DatasetRecord
unfolding register_found
register x id rows = register_found x (codes "dataset_not_found") (get id rows) rows

unfoldable pub register_code :
    Surroundings → Option SecurityCode → List DatasetRecord → Ending × List DatasetRecord
unfolding register_found
register_code x none rows = (code_invalid, rows)
register_code x (some code) rows =
    register_found x (codes "no_published_dataset") (latest_published code rows) rows

-- `register_latest`
unfoldable pub register_latest :
    Surroundings → Text → List DatasetRecord → Ending × List DatasetRecord
unfolding register_code
register_latest x raw rows = register_code x (security_code x.digit raw) rows

-- How the handler ends: acknowledged, or an exception, after which the message is delivered again.
pub data Handling : Type 0 where
  acknowledged : Handling
  raises : Handling

abbrev pub handled : Ending → Handling
handled (succeeded s) = acknowledged
handled (refused e) = if e.retryable then raises else acknowledged
handled record_missing = raises
handled code_invalid = raises

-- `register_security_dataset`
unfoldable pub register_security_dataset :
    Surroundings → ℕ → List DatasetRecord → Handling × List DatasetRecord
unfolding register
register_security_dataset x id rows =
    let (ending, after) = register x id rows in (handled ending, after)
