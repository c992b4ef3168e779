-- ===== src/Ingestion/Ended.antt =====
-- What a run of a batch leaves: `run` of app/app/application/securities/ingestion_service.py.
use info_backend.Prelude.{All, ℕ, ◌≤◌, ◌≡◌, ◌↔◌, none, List, ◌++◌, length}
use info_backend.SecurityCode.{SecurityCode}
use info_backend.Intake.Domain.{succeeded}
use info_backend.Ingestion.Domain.{ArchivedItem, IngestionSummary, Outcome}
use info_backend.Ingestion.Store.{Item, World, finish}
use info_backend.Ingestion.Context.{max_requests}
use info_backend.Ingestion.Summary.{stored_summary}
use info_backend.Ingestion.Service.{Service}
use info_backend.Ingestion.Collection.{HasObject, IsStored, IsNumbered, Mirrors}
use info_backend.Ingestion.Totals.{IsTotal}
use info_backend.Ingestion.Finished.{IsFinished}

-- A run that answered: the row of the batch tells what the summary tells, which fits the items, and the
-- items have their rows and objects.
unfoldable pub IsRun : Service → ℕ → World → IngestionSummary → World → Type 0
IsRun s id w summary u =
    IsFinished id summary u
    × IsStored s.env.store u
    × ((items : List ArchivedItem) × IsTotal s.conversions items summary
        × (length items ≤ max_requests)
        × IsNumbered 1 items
        × All (λ i. HasObject s.env.store.backend u.bucket i.object_key i.sha256) items
        × ((rows : List Item) × (u.items ≡ w.items ++ rows) × Mirrors id rows items))
    × ((summary.status ≡ succeeded) ↔ (summary.error_code ≡ none))

module _ (s : Service) (id : ℕ) where
  abbrev finish_end : IngestionSummary → World → Outcome (Unit {0}) × World
  finish_end summary w =
      finish s.env.store id summary.status (stored_summary summary) summary.error_code
        summary.error_detail w
