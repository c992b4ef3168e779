-- ===== src/Ingestion/Slices.antt =====
-- The slices of the periods that are asked for: `collect` of
-- app/app/application/securities/collectors/eastmoney_f10.py.
use info_backend.Prelude.{
  ◌≤◌, ◌≡◌, List, [], ◌∷◌, ◌++◌, length, All, Text, contains, false, true, some, map,
}
use info_backend.SecurityCode.{SecurityCode}
use info_backend.Ingestion.Domain.{FetchRequest, Bytes}
use info_backend.Ingestion.Json.{Reader, Json, as_list}
use info_backend.Ingestion.Context.{Script, finished, fails, fetching, trying}
use info_backend.Ingestion.Eastmoney.{
  batch_size, periods_request, data_request, ask_statements, has_rows, data_of,
}

-- the slices one after another
abbrev pub concatenated : List (List Text) → List Text
concatenated [] = []
concatenated (l ∷ rest) = l ++ concatenated rest

-- A request asks for some periods, and for at most five.
abbrev pub IsSlice : List Text → Type 0
IsSlice l = (1 ≤ length l) × (length l ≤ batch_size)

-- The requests that a collector makes when each is answered with a content
unfoldable pub asked : (FetchRequest → Bytes) → Script → List FetchRequest
asked answer finished = []
asked answer (fails e) = []
asked answer (fetching request next) = request ∷ asked answer (next (answer request))
asked answer (trying request next) = request ∷ asked answer (next (some (answer request)))

-- No period occurs twice.
abbrev pub AreDistinct : List Text → Type 0
AreDistinct [] = Unit
AreDistinct (t ∷ l) = (contains l t ≡ false) × AreDistinct l

module _ (r : Reader) (code : SecurityCode) (company_type statement prefix : Text)
    (answer : FetchRequest → Bytes) where
  abbrev data_for : List Text → FetchRequest
  data_for = data_request code company_type statement prefix

  -- The answer to each request for data has rows.
  abbrev pub AnswersRows : Type 0
  AnswersRows =
      (l : List Text) → has_rows (as_list (data_of (r.parse (answer (data_for l))))) ≡ true

  -- The requests for a statement: the one for its periods, one for each slice of them, and those that follow
  pub record Covers (periods : List Text) (more : List (Text × Text)) : Type 0 where
    pub slices : List (List Text)
    pub requests :
        asked answer (ask_statements r code company_type ((statement, prefix) ∷ more))
        ≡ periods_request code company_type statement prefix
          ∷ (map data_for slices ++ asked answer (ask_statements r code company_type more))
    pub covered : concatenated slices ≡ periods
    pub sliced : All IsSlice slices
    pub once : AreDistinct periods
