-- ===== src/Registration/Examples.antt =====
-- The theorems on the registration at concrete data sets.
use info_backend.Prelude.{ℕ, ◌≡◌, refl, true, false, none, some, [], ◌∷◌, text_eq, codes}
use info_backend.Registration.Registrar.{
  DatasetRecord, RegistrationError, Registrar, Payload, Body, Reply, answered, configured, posted,
  judged, check, is_confirmed, payload, is_retryable, code_of,
}
use info_backend.Registration.Registrar
use info_backend.Registration.Records.{
  get, published, mark_registered, mark_registration_failed, registered, failed_with,
}
use info_backend.Registration.Service.{
  Surroundings, summary, after_register, register_record, register_found, register,
}
use info_backend.Registration.Outcomes.{IsRegistration, register-IsRegistration}
use info_backend.Registration.Refusals.{times, register-refused}

abbrev data_set : DatasetRecord
data_set = record {
  record_id = 3;
  dataset_id = codes "600519";
  data_version = codes "v1";
  security_code = codes "600519";
  status = published;
  ingestion_id = codes "i";
  bucket = codes "b";
  object_key = codes "k";
  version_id = none;
  sha256 = codes "ab";
  size_bytes = 10;
  start_date = codes "2020";
  end_date = codes "2021";
  built_at = 1;
  registered_at = none;
  registration_error = some (codes "knowledge_unreachable");
}

-- A knowledge service that confirms what it is sent, or answers with a code.
abbrev replies : ℕ → Payload → Reply
replies code p = answered code (
    some (record {
      data_version = some p.data_version;
      sha256 = some p.sha256;
      status = some (codes "active");
    }))

abbrev surroundings : ℕ → Surroundings
surroundings code = record {
  registrar = record {
    url = some (codes "u");
    has_tokens = true;
    token = some (codes "t");
    source_app = codes "knowfeed";
    post = λ url token p. replies code p;
  };
  now = 50;
  digit = λ c. false;
  others = λ l. l;
}

abbrev old : DatasetRecord
old = record data_set { registered_at = some 9 }

register-IsRegistration_example :
    IsRegistration
      (surroundings 201)
      3
      (data_set ∷ [])
      (registered 50 data_set ∷ [])
      (summary data_set)
unfolding register register_found register_record after_register mark_registered registered get
    configured Registrar.register posted judged check is_confirmed payload text_eq
register-IsRegistration_example =
    register-IsRegistration (surroundings 201) 3 (data_set ∷ []) (registered 50 data_set ∷ [])
      (summary data_set) refl

register-refused_example :
    times (failed_with (codes "knowledge_version_conflict") old ∷ []) ≡ some 9 ∷ []
unfolding register register_found register_record after_register mark_registration_failed
    failed_with get configured Registrar.register posted judged check is_confirmed payload text_eq
    is_retryable code_of
register-refused_example =
    register-refused (surroundings 409) 3 (old ∷ [])
      (failed_with (codes "knowledge_version_conflict") old ∷ [])
      (record { code = codes "knowledge_version_conflict"; retryable = false }) (λ l. refl) refl
