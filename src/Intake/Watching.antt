-- ===== src/Intake/Watching.antt =====
-- The watchlist (`SqlWatchlist` of app/app/infrastructure/securities/request_store.py) as a set of codes with a log.
use info_backend.Prelude.{
  ℕ, suc, ◌≡◌, refl, ◌∙◌, ap, Bool, true, false, Option, none, some, List, [], ◌∷◌, ◌++◌, Text,
  text_eq, text_eq_iff, length, take, find?, update, arith, Bool-cases, Option-cases, inl, inr,
  if◌then◌else◌, is_none,
}
use info_backend.SecurityCode.{SecurityCode}
use info_backend.Intake.Unit.{Session, WatchRow, LogRow, Action, ◌>>=◌}
use info_backend.Intake.Domain.{ok}
use info_backend.Intake.Watchlist.{is_for, watch_row, is_watched, logged, listed_again, struck_off}
use info_backend.Intake.Watchlist

find?-new_row :
    (code : Text) (row : WatchRow) (l : List WatchRow)
    → is_for code row ≡ true
    → find? (is_for code) l ≡ none
    → find? (is_for code) (l ++ row ∷ []) ≡ some row
find?-new_row code row [] h e = rw h refl
find?-new_row code row (x ∷ l) h e =
    ground (arith, λ (p : find? (is_for code) l ≡ none). find?-new_row code row l h p)

find?-rewritten :
    (code : Text) (f : WatchRow → WatchRow) (l : List WatchRow) {row : WatchRow}
    → ((r : WatchRow) → (f r).security_code ≡ r.security_code)
    → find? (is_for code) l ≡ some row
    → find? (is_for code) (update (is_for code) f l) ≡ some (f row)
find?-rewritten code f [] keeps e = cc
find?-rewritten code f (x ∷ l) {row} keeps e = elim (Bool-cases (is_for code x)) [
  | inl b ↦
      let kept : is_for code (f x) ≡ true = ap (λ c. text_eq c code) (keeps x) ∙ b in
      rw b (rw kept (ap (λ o. some (f o)) (first x (rw b at e))))
  | inr b ↦ rw b (rw b (find?-rewritten code f l keeps (rw b at e)))
]
  where
    first : (y : WatchRow) → some y ≡ some row → y ≡ row
    first y q = cc

log_length : (l : List LogRow) (x : LogRow) → length (l ++ x ∷ []) ≡ suc (length l)
log_length [] x = refl
log_length (y ∷ l) x = ap suc (log_length l x)

-- How much longer the log is after an operation that answers `b`.
abbrev pub Logged : Bool → Session → Session → Type 0
Logged b s t =
    length t.db.watchlist_log
    ≡ (if b then suc (length s.db.watchlist_log) else length s.db.watchlist_log)

text_eq_same : (s : Text) → text_eq s s ≡ true
text_eq_same s = (text_eq_iff s s).1 refl

-- After an addition, whatever it answers, the code is on the watchlist, and the log has one entry more exactly
-- when it answers `True`.
pub add-contains :
    (code : SecurityCode) (by : Text) (remark : Option Text) (at : ℕ) (s : Session)
    → (b : Bool) × (t : Session) × (Watchlist.add code by remark at s ≡ ok (b, t))
      × (Watchlist.contains code t ≡ ok (true, t))
      × Logged b s t
unfolding Watchlist.add Watchlist.contains logged listed_again ◌>>=◌
add-contains code by remark at s = elim (Option-cases (watch_row code.code s.db)) [
  | inl e ↦ (
    true,
    added none,
    rw e refl,
    rw (find?-new_row code.code entered s.db.watchlist (text_eq_same code.code) e) refl,
    log_length s.db.watchlist_log _,
  )
  | inr (row, e) ↦ elim (Bool-cases (is_none row.removed_at)) [
    | inl k ↦ (false, s, rw e (rw k refl), rw e (rw k refl), refl)
    | inr k ↦ (
      true,
      added (some row),
      rw e (rw k refl),
      rw (find?-rewritten code.code refilled s.db.watchlist (λ r. refl) e) refl,
      log_length s.db.watchlist_log _,
    )
  ]
]
  where
    added : Option WatchRow → Session
    added old = record s {
      db = logged code Action.add by remark at (listed_again old code by remark at s.db);
    }

    entered : WatchRow
    entered = record {
      security_code = code.code;
      added_at = at;
      added_by = take 64 by;
      note = remark;
      removed_at = none;
      removed_by = none;
      removal_note = none;
    }

    refilled : WatchRow → WatchRow
    refilled r = record r {
      added_at = at;
      added_by = take 64 by;
      note = remark;
      removed_at = none;
      removed_by = none;
      removal_note = none;
    }
