-- ===== src/Registration/Outcomes.antt =====
-- What a registration that ends one way or the other has done.
use info_backend.Prelude.{
  ℕ, ◌≡◌, refl, ap, true, ◌||◌, ◌⊎◌, inl, inr, Option, none, some, List, Text, codes, text_eq,
  text_eq_iff, arith, ◌==◌, ==_iff, Bool-cases, any, update, subst, ◌∷◌, [],
}
use info_backend.Registration.Registrar.{
  DatasetRecord, RegistrationError, Registrar, Reply, answered, unreachable, Body, payload,
  configured, is_confirmed, check, judged, posted, refusal, has_text,
}
use info_backend.Registration.Registrar
use info_backend.Registration.Records.{
  get, published, mark_registered, mark_registration_failed, registered, has_record_id,
}
use info_backend.Registration.Service.{
  RegistrationSummary, Ending, succeeded, refused, Surroundings, summary, after_mark,
  after_register, register_record, register_found, register,
}

-- The knowledge service has confirmed the record's version as the active one.
pub record IsConfirmation (g : Registrar) (r : DatasetRecord) : Type 0 where
  pub url : Text
  pub token : Text
  pub url_of : g.url ≡ some url
  pub token_of : g.token ≡ some token
  pub status_code : ℕ
  pub body : Body
  pub reply : g.post url token (payload g r) ≡ answered status_code (some body)
  pub accepted : (status_code ≡ 200) ⊎ (status_code ≡ 201)
  pub version : body.data_version ≡ some r.data_version
  pub checksum : body.sha256 ≡ some r.sha256
  pub active : body.status ≡ some (codes "active")

has_text_iff : (o : Option Text) (t : Text) → has_text o t ≡ true → o ≡ some t
has_text_iff none t h = cc
has_text_iff (some s) t h = ap some ((text_eq_iff s t).0 h)

-- What a reply that is taken for a success is.
record IsAccepted (r : DatasetRecord) (reply : Reply) : Type 0 where
  status_code : ℕ
  body : Body
  same : reply ≡ answered status_code (some body)
  accepted : (status_code ≡ 200) ⊎ (status_code ≡ 201)
  version : has_text body.data_version r.data_version ≡ true
  checksum : has_text body.sha256 r.sha256 ≡ true
  active : has_text body.status (codes "active") ≡ true

either : (n : ℕ) → n == 200 || n == 201 ≡ true → (n ≡ 200) ⊎ (n ≡ 201)
either n h = elim (Bool-cases (n == 200)) [
  | inl e ↦ inl ((==_iff n 200).0 e)
  | inr e ↦ inr ((==_iff n 201).0 (rw e at h))
]

judged-IsAccepted : (r : DatasetRecord) (reply : Reply) → judged reply r ≡ none → IsAccepted r reply
unfolding judged check is_confirmed
judged-IsAccepted r unreachable h = cc
judged-IsAccepted r (answered n none) h = ground (arith, h)
judged-IsAccepted r (answered n (some body)) h = elim (Bool-cases (n == 200 || n == 201)) [
  | inl a ↦ elim (Bool-cases (is_confirmed (some body) r)) [
    | inl c ↦ record {
      status_code = n;
      body = body;
      same = refl;
      accepted = either n a;
      version = ground (arith, c);
      checksum = ground (arith, c);
      active = ground (arith, c);
    }
    | inr c ↦ never (rw c at (rw a at h))
  ]
  | inr a ↦ never (rw a at h)
]
  where
    never :
        {e : RegistrationError} {P : Type 0} → ◌≡◌ {A = Option RegistrationError} (some e) none → P
    never q = cc

-- A registration that the registrar reports as done is confirmed.
register-IsConfirmation :
    (g : Registrar) (r : DatasetRecord) → Registrar.register g r ≡ none → IsConfirmation g r
unfolding Registrar.register posted
register-IsConfirmation g r h = go g.url refl h
  where
    never :
        {e : RegistrationError} {P : Type 0} → ◌≡◌ {A = Option RegistrationError} (some e) none → P
    never q = cc

    sent :
        (url : Text)
        → g.url ≡ some url
        → (o : Option Text) → g.token ≡ o
        → posted g url r o ≡ none
        → IsConfirmation g r
    sent url there none t q = never q
    sent url there (some token) t q =
        let a = judged-IsAccepted r (g.post url token (payload g r)) q in
        record {
          url = url;
          token = token;
          url_of = there;
          token_of = t;
          status_code = a.status_code;
          body = a.body;
          reply = a.same;
          accepted = a.accepted;
          version = has_text_iff a.body.data_version r.data_version a.version;
          checksum = has_text_iff a.body.sha256 r.sha256 a.checksum;
          active = has_text_iff a.body.status (codes "active") a.active;
        }

    go : (o : Option Text) → g.url ≡ o → Registrar.register_to g r o ≡ none → IsConfirmation g r
    go none e q = never q
    go (some url) e q = elim (Bool-cases (configured g)) [
      | inl b ↦ sent url e g.token refl (rw b at q)
      | inr b ↦ never (rw b at q)
    ]

-- The row of the id is marked: it has the time, and no error.
pub record IsMarked (now id : ℕ) (rows : List DatasetRecord) : Type 0 where
  pub row : DatasetRecord
  pub found : get id rows ≡ some row
  pub time : row.registered_at ≡ some now
  pub clear : row.registration_error ≡ none

updated-IsMarked :
    (now id : ℕ) (rows : List DatasetRecord)
    → any (has_record_id id) rows ≡ true
    → IsMarked now id (update (has_record_id id) (registered now) rows)
unfolding get registered
updated-IsMarked now id [] h = cc
updated-IsMarked now id (r ∷ rows) h = elim (Bool-cases (has_record_id id r)) [
  | inl hit ↦ record {
    row = registered now r;
    found = rw hit (rw hit refl);
    time = refl;
    clear = refl;
  }
  | inr miss ↦
      let later = updated-IsMarked now id rows (ground (arith, h, miss)) in
      record {
        row = later.row;
        found = rw miss (rw miss later.found);
        time = later.time;
        clear = later.clear;
      }
]

mark_registered-IsMarked :
    (now id : ℕ) (rows : List DatasetRecord) {after : List DatasetRecord}
    → mark_registered now id rows ≡ some after
    → IsMarked now id after
unfolding mark_registered
mark_registered-IsMarked now id rows {after} e = elim (Bool-cases (any (has_record_id id) rows)) [
  | inl there ↦
      let same : update (has_record_id id) (registered now) rows ≡ after =
        ground (arith, rw there at e) in
      subst (IsMarked now id) same (updated-IsMarked now id rows there)
  | inr absent ↦ let clash : none ≡ some after = rw absent at e in cc
]

-- A registration that succeeds: the row is a published one, the knowledge service has confirmed it, and
-- it is marked in the tables as others have left them.
pub record IsRegistration (x : Surroundings) (id : ℕ) (rows after : List DatasetRecord)
    (s : RegistrationSummary) : Type 0 where
  pub row : DatasetRecord
  pub found : get id rows ≡ some row
  pub is_published : row.status ≡ published
  pub confirmed : IsConfirmation x.registrar row
  pub answer : s ≡ summary row
  pub written : mark_registered x.now row.record_id (x.others rows) ≡ some after
  pub marked : IsMarked x.now row.record_id after

-- A summary is answered only for a published data set whose very version and checksum the knowledge
-- service, asked at the configured address with the token of the source, has confirmed as the active one.
-- The row of its id then has the time of the registration and no error of one, whatever others have
-- written in the meantime.
pub register-IsRegistration :
    (x : Surroundings) (id : ℕ) (rows after : List DatasetRecord) (s : RegistrationSummary)
    → register x id rows ≡ (succeeded s, after)
    → IsRegistration x id rows after s
unfolding register register_found register_record after_register
register-IsRegistration x id rows after s e = go (get id rows) refl e
  where
    differ :
        {f : RegistrationError} {l : List DatasetRecord} {P : Type 0}
        → ◌≡◌ {A = Ending × List DatasetRecord} (refused f, l) (succeeded s, after)
        → P
    differ q = cc

    mark :
        (r : DatasetRecord)
        → get id rows ≡ some r
        → r.status ≡ published
        → IsConfirmation x.registrar r
        → (o : Option (List DatasetRecord)) → mark_registered x.now r.record_id (x.others rows) ≡ o
        → after_mark (succeeded (summary r)) (x.others rows) o ≡ (succeeded s, after)
        → IsRegistration x id rows after s
    mark r found status confirmed none m q = cc
    mark r found status confirmed (some l) m q = record {
      row = r;
      found = found;
      is_published = status;
      confirmed = confirmed;
      answer = cc;
      written = cc;
      marked = mark_registered-IsMarked x.now r.record_id (x.others rows) cc;
    }

    asked :
        (r : DatasetRecord)
        → get id rows ≡ some r
        → r.status ≡ published
        → (o : Option RegistrationError) → Registrar.register x.registrar r ≡ o
        → after_register x r (x.others rows) o ≡ (succeeded s, after)
        → IsRegistration x id rows after s
    asked r found status none c q =
        mark r found status (register-IsConfirmation x.registrar r c) _ refl q
    asked r found status (some f) c q =
        failure (mark_registration_failed f.code r.record_id (x.others rows)) q
      where
        failure :
            (o : Option (List DatasetRecord))
            → after_mark (refused f) (x.others rows) o ≡ (succeeded s, after)
            → IsRegistration x id rows after s
        failure none q = cc
        failure (some l) q = cc

    go :
        (o : Option DatasetRecord)
        → get id rows ≡ o
        → register_found x (codes "dataset_not_found") o rows ≡ (succeeded s, after)
        → IsRegistration x id rows after s
    go none found q = differ q
    go (some r) found q = elim (Bool-cases (text_eq r.status published)) [
      | inl b ↦ elim (Bool-cases (configured x.registrar)) [
        | inl c ↦ asked r found ((text_eq_iff r.status published).0 b) _ refl (rw c at (rw b at q))
        | inr c ↦ differ (rw c at (rw b at q))
      ]
      | inr b ↦ differ (rw b at q)
    ]
