-- ===== src/Intake/Watchlist.antt =====
-- `SqlWatchlist` of app/app/infrastructure/securities/request_store.py.
use info_backend.Prelude.{
  ℕ, Bool, true, false, not, Option, none, some, List, [], ◌∷◌, ◌++◌, take, find?, update,
  filter_by, Text, text_eq, if◌then◌else◌, is_none,
}
use info_backend.SecurityCode.{SecurityCode}
use info_backend.Intake.Unit.{Db, WatchRow, Action, M, pure, gets, modify, ◌>>=◌, ◌>>◌}

abbrev pub is_for : Text → WatchRow → Bool
is_for code row = text_eq row.security_code code

abbrev pub watch_row : Text → Db → Option WatchRow
watch_row code db = find? (is_for code) db.watchlist

abbrev is_kept : WatchRow → Bool
is_kept row = is_none row.removed_at

-- `row is not None and row.removed_at is None`
abbrev pub is_watched : Option WatchRow → Bool
is_watched none = false
is_watched (some row) = is_kept row

unfoldable pub contains : SecurityCode → M Bool
contains code = do row ← gets (watch_row code.code); pure (is_watched row)

-- The entries carry the columns of their rows. The order by code is not modelled.
unfoldable pub entries : Bool → M (List WatchRow)
entries include_removed =
    gets (λ db. if include_removed then db.watchlist else filter_by is_kept db.watchlist)

-- `_log`
unfoldable pub logged : SecurityCode → Action → Text → Option Text → ℕ → Db → Db
logged code action by note at db = record db {
  watchlist_log =
      db.watchlist_log
      ++ record {
        security_code = code.code;
        action = action;
        actor = take 64 by;
        note = note;
        at = at;
      }
        ∷ [];
}

abbrev fresh_entry : SecurityCode → Text → Option Text → ℕ → WatchRow
fresh_entry code by note at = record {
  security_code = code.code;
  added_at = at;
  added_by = take 64 by;
  note = note;
  removed_at = none;
  removed_by = none;
  removal_note = none;
}

-- `add`, below its early return: a new row, or the old row filled anew
unfoldable pub listed_again : Option WatchRow → SecurityCode → Text → Option Text → ℕ → Db → Db
listed_again none code by note at db = record db {
  watchlist = db.watchlist ++ fresh_entry code by note at ∷ [];
}
listed_again (some old) code by note at db = record db {
  watchlist =
      update (is_for code.code)
        (λ row. record row {
          added_at = at;
          added_by = take 64 by;
          note = note;
          removed_at = none;
          removed_by = none;
          removal_note = none;
        })
        db.watchlist;
}

unfoldable pub add : SecurityCode → Text → Option Text → ℕ → M Bool
unfolding logged listed_again
add code by note at = do
  row ← gets (watch_row code.code)
  if is_watched row then pure false else do
    modify (listed_again row code by note at)
    modify (logged code Action.add by note at)
    pure true

unfoldable pub struck_off : SecurityCode → Text → Option Text → ℕ → Db → Db
struck_off code by note at db = record db {
  watchlist =
      update (is_for code.code)
        (λ row. record row {
          removed_at = some at;
          removed_by = some (take 64 by);
          removal_note = note;
        })
        db.watchlist;
}

unfoldable pub remove : SecurityCode → Text → Option Text → ℕ → M Bool
unfolding logged struck_off
remove code by note at = do
  row ← gets (watch_row code.code)
  if not (is_watched row) then pure false else do
    modify (struck_off code by note at)
    modify (logged code Action.remove by note at)
    pure true
