-- ===== src/Ingestion/Domain.antt =====
-- The types of a collection: app/app/domain/securities/models.py.
use info_backend.Prelude.{
  ℕ, zero, suc, ◌+◌, ◌/◌, ◌%◌, Bool, Option, none, some, List, [], ◌∷◌, ◌++◌, Text, text_eq, codes,
  ltb, if◌then◌else◌, ◌≡◌, refl, ◌⊎◌, inl, inr,
}
use info_backend.Intake.Domain.{IngestionStatus}

-- `bytes`
abbrev pub Bytes : Type 0
Bytes = List ℕ

pub data SourceCode : Type 0 where
  cninfo eastmoney_f10 : SourceCode

abbrev pub source_text : SourceCode → Text
source_text cninfo = codes "cninfo"
source_text eastmoney_f10 = codes "eastmoney-f10"

pub data ItemKind : Type 0 where
  stock_list announcement_query report_file company_type_page statement_periods statement_data :
      ItemKind

abbrev pub is_statement_data : ItemKind → Bool
is_statement_data statement_data = Bool.true
is_statement_data _ = Bool.false

abbrev pub is_report_file : ItemKind → Bool
is_report_file report_file = Bool.true
is_report_file _ = Bool.false

-- What a value of `meta` may be.
pub data Value : Type 0 where
  text : Text → Value
  number : ℕ → Value
  flag : Bool → Value
  texts : List Text → Value

-- `dict[str, Any]`
abbrev pub Meta : Type 0
Meta = List (Text × Value)

unfoldable pub lookup : Text → Meta → Option Value
lookup key [] = none
lookup key ((k, v) ∷ rest) = let later = lookup key rest in if text_eq k key then some v else later

-- `{**meta, key: value}`
unfoldable pub put : Text → Value → Meta → Meta
put key value [] = (key, value) ∷ []
put key value ((k, v) ∷ rest) =
    let later = (k, v) ∷ put key value rest in if text_eq k key then (k, value) ∷ rest else later

pub record FetchRequest : Type 0 where
  pub source : SourceCode
  pub kind : ItemKind
  pub url : Text
  pub name : Text
  pub method : Text
  pub params : List (Text × Text)
  pub form : Option (List (Text × Text))
  pub meta : Meta
  pub max_bytes : Option ℕ
  pub timeout_seconds : Option ℕ

pub record CollectError : Type 0 where
  pub code : Text
  pub detail : Text

pub record SkippedItem : Type 0 where
  pub source : SourceCode
  pub kind : ItemKind
  pub name : Text
  pub error_code : Text
  pub error_detail : Option Text
  pub meta : Meta

pub record RawResponse : Type 0 where
  pub status_code : ℕ
  pub content_type : Text
  pub content : Bytes
  pub final_url : Text
  pub decoded_from : Option Text

pub record ArchivedItem : Type 0 where
  pub seq : ℕ
  pub source : SourceCode
  pub kind : ItemKind
  pub sha256 : Text
  pub size_bytes : ℕ
  pub object_key : Text
  pub reused : Bool
  pub http_status : ℕ
  pub meta : Meta

pub record IngestionSummary : Type 0 where
  pub ingestion_id : ℕ
  pub security_code : Text
  pub status : IngestionStatus
  pub started_at : ℕ
  pub finished_at : ℕ
  pub items : ℕ
  pub new_artifacts : ℕ
  pub reused_artifacts : ℕ
  pub bytes_fetched : ℕ
  pub by_source : List (Text × ℕ)
  pub report_years : List ℕ
  pub statement_periods : List (Text × ℕ)
  pub error_code : Option Text
  pub error_detail : Option Text
  pub skipped : List SkippedItem

-- The JSON of a skipped item, and of the summary, in the row of the batch.
pub record StoredSkip : Type 0 where
  pub source : Text
  pub kind : ItemKind
  pub name : Text
  pub error_code : Text
  pub error_detail : Option Text
  pub fiscal_year : Option Value

pub record StoredSummary : Type 0 where
  pub items : ℕ
  pub new_artifacts : ℕ
  pub reused_artifacts : ℕ
  pub bytes_fetched : ℕ
  pub by_source : List (Text × ℕ)
  pub report_years : List ℕ
  pub statement_periods : List (Text × ℕ)
  pub skipped : List StoredSkip

-- What ends an operation that does not answer: a `CollectError`, which a batch records, and the exceptions
-- that nothing catches.
pub data Crash : Type 0 where
  unregistered_source storage_failed digest_mismatch no_source_row batch_absent bad_meta unreachable
        invalid_code not_runnable :
      Crash

pub data Outcome (A : Type 0) : Type 0 where
  done : A → Outcome A
  stopped : CollectError → Outcome A
  crashed : Crash → Outcome A

-- `exc.detail or None`
abbrev pub or_none : Text → Option Text
or_none [] = none
or_none (c ∷ t) = some (c ∷ t)

-- `str` of a number; each step takes a digit, so that `n` steps are enough.
decimal_within : ℕ → ℕ → Text
decimal_within zero n = (b'0' + n % 10) ∷ []
decimal_within (suc fuel) n =
    let rest = decimal_within fuel (n / 10) ++ (b'0' + n % 10) ∷ [] in
    if ltb n 10 then (b'0' + n) ∷ [] else rest

unfoldable pub decimal : ℕ → Text
unfolding decimal_within
decimal n = decimal_within n n

pub Outcome-cases :
    {A : Type 0} (o : Outcome A)
    → ((a : A) × (o ≡ done a))
      ⊎ (((e : CollectError) × (o ≡ stopped e)) ⊎ ((e : Crash) × (o ≡ crashed e)))
Outcome-cases (done a) = inl (a, refl)
Outcome-cases (stopped e) = inr (inl (e, refl))
Outcome-cases (crashed e) = inr (inr (e, refl))

pub done_injective : {A : Type 0} {a b : A} → done a ≡ done b → a ≡ b
done_injective e = cc
