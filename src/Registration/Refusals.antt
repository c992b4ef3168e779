-- ===== src/Registration/Refusals.antt =====
-- A registration that is refused keeps what an earlier one has achieved.
use info_backend.Prelude.{
  ℕ, ◌≡◌, refl, sym, ◌∙◌, ap, Bool, true, false, Option, none, some, List, [], ◌∷◌, map, Text,
  codes, text_eq, arith, any, update, if◌then◌else◌, Bool-cases, inl, inr,
}
use info_backend.Registration.Registrar.{DatasetRecord, RegistrationError, configured}
use info_backend.Registration.Records.{
  get, published, has_record_id, failed_with, mark_registered, mark_registration_failed,
}
use info_backend.Registration.Service.{
  Ending, succeeded, refused, Surroundings, summary, after_mark, after_register, register_record,
  register_found, register,
}

-- When each data set was registered, in the order of the table.
abbrev pub times : List DatasetRecord → List (Option ℕ)
times rows = map (λ r. r.registered_at) rows

times-failed_with :
    (code : Text) (id : ℕ) (rows : List DatasetRecord)
    → times (update (has_record_id id) (failed_with code) rows) ≡ times rows
unfolding failed_with
times-failed_with code id [] = refl
times-failed_with code id (r ∷ rows) = ground (arith, times-failed_with code id rows)

-- A refused registration, for whatever reason, changes no time of registration, so a version that was
-- registered before stays so, provided that the others change none meanwhile.
pub register-refused :
    (x : Surroundings) (id : ℕ) (rows after : List DatasetRecord) (e : RegistrationError)
    → ((l : List DatasetRecord) → times (x.others l) ≡ times l)
    → register x id rows ≡ (refused e, after)
    → times after ≡ times rows
unfolding register register_found register_record after_register mark_registration_failed
register-refused x id rows after e others h = go (get id rows) h
  where
    same :
        {f : Ending}
        → ◌≡◌ {A = Ending × List DatasetRecord} (f, rows) (refused e, after)
        → times after ≡ times rows
    same q = ap times (sym (ap (λ z. z.1) q))

    marked :
        (f : RegistrationError) (r : DatasetRecord) (b : Bool)
        → after_mark (refused f) (x.others rows) (
            if b
            then some (update (has_record_id r.record_id) (failed_with f.code) (x.others rows))
            else none)
          ≡ (refused e, after)
        → times after ≡ times rows
    marked f r true q =
        ap times (sym (ap (λ z. z.1) q))
        ∙ times-failed_with f.code r.record_id (x.others rows)
        ∙ others rows
    marked f r false q = ap times (sym (ap (λ z. z.1) q)) ∙ others rows

    done :
        (r : DatasetRecord) (o : Option (List DatasetRecord))
        → after_mark (succeeded (summary r)) (x.others rows) o ≡ (refused e, after)
        → times after ≡ times rows
    done r none q = cc
    done r (some l) q = cc

    asked :
        (r : DatasetRecord) (o : Option RegistrationError)
        → after_register x r (x.others rows) o ≡ (refused e, after)
        → times after ≡ times rows
    asked r none q = done r (mark_registered x.now r.record_id (x.others rows)) q
    asked r (some f) q = marked f r (any (has_record_id r.record_id) (x.others rows)) q

    go :
        (o : Option DatasetRecord)
        → register_found x (codes "dataset_not_found") o rows ≡ (refused e, after)
        → times after ≡ times rows
    go none q = same q
    go (some r) q = elim (Bool-cases (text_eq r.status published)) [
      | inl b ↦ elim (Bool-cases (configured x.registrar)) [
        | inl c ↦ asked r _ (rw c at (rw b at q))
        | inr c ↦ same (rw c at (rw b at q))
      ]
      | inr b ↦ same (rw b at q)
    ]
