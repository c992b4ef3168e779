-- ===== src/Ingestion/Refines.antt =====
-- The store of raw documents as a set of contents under keys: what `archive`
-- (app/app/infrastructure/securities/store.py) promises to a collection.
use info_backend.Prelude.{
  ℕ, suc, ◌≡◌, ◌≢◌, refl, sym, ap, ◌∙◌, Bool, true, false, ◌&&◌, ◌||◌, List, [], ◌∷◌, ◌++◌, length,
  arith, Text, text_eq, text_eq_iff, inl, inr, Bool-cases,
}
use info_backend.SecurityCode.{SecurityCode}
use info_backend.Ingestion.Domain.{ArchivedItem, Outcome, done, stopped, crashed}
use info_backend.Ingestion.Store.{World, StoreEnv}
use info_backend.Ingestion.Archive.{is_same_content}
use info_backend.Ingestion.Context.{Env}
use info_backend.Ingestion.Service.{Collector, collect_all, new_run}
use info_backend.Ingestion.Existing.{has_content, any-snoc}
use info_backend.Ingestion.Effects.{Stores, archive-Archival}
use info_backend.Ingestion.Failures.{Leaves, archive-Spares}
use info_backend.Ingestion.Keeps.{Property, IsKept, collect_all-Holds}

-- Which digests are kept under which keys
abbrev pub Contents : Type 0
Contents = Text → Text → Bool

abbrev pub insert : Text → Text → Contents → Contents
insert key sha256 set k s = set k s || (text_eq key k && text_eq sha256 s)

-- The set after the items
unfoldable pub after : Contents → List ArchivedItem → Contents
after set [] = set
after set (item ∷ items) = after (insert item.object_key item.sha256 set) items

-- An item is reused exactly when its content is in the set by then.
unfoldable pub Replays : Contents → List ArchivedItem → Type 0
Replays set [] = Unit
Replays set (item ∷ items) =
    (item.reused ≡ set item.object_key item.sha256)
    × Replays (insert item.object_key item.sha256 set) items

-- The contents of the table
abbrev pub contents_of : StoreEnv → World → Contents
contents_of env w key sha256 = has_content env.backend.bucket key sha256 w.artifacts

unfoldable pub Refines : StoreEnv → World → Property
Refines env before w items =
    Replays (contents_of env before) items
    × ((k s : Text) → contents_of env w k s ≡ after (contents_of env before) items k s)

or_false : (b : Bool) → b ≡ (b || false)
or_false true = refl
or_false false = refl

after-snoc :
    (set : Contents) (items : List ArchivedItem) (item : ArchivedItem) (k s : Text)
    → after set (items ++ item ∷ []) k s ≡ insert item.object_key item.sha256 (after set items) k s
unfolding after
after-snoc set [] item k s = refl
after-snoc set (x ∷ items) item k s = after-snoc (insert x.object_key x.sha256 set) items item k s

Replays-snoc :
    (set : Contents) (items : List ArchivedItem) (item : ArchivedItem)
    → Replays set items
    → item.reused ≡ after set items item.object_key item.sha256
    → Replays set (items ++ item ∷ [])
unfolding Replays after
Replays-snoc set [] item h e = (e, tt)
Replays-snoc set (x ∷ items) item h e =
    (h.0, Replays-snoc (insert x.object_key x.sha256 set) items item h.1 e)

-- After `archive` the table has the content, and what it had.
contents_after :
    (env : StoreEnv) (w u : World) (item : ArchivedItem)
    → item.reused ≡ contents_of env w item.object_key item.sha256
    → Stores env w item u
    → (k s : Text)
    → contents_of env u k s ≡ insert item.object_key item.sha256 (contents_of env w) k s
unfolding Stores
contents_after env w u item there (inl (reused, artifacts, _)) k s =
    rw artifacts (elim (Bool-cases (text_eq item.object_key k && text_eq item.sha256 s)) [
      | inl same ↦
          let key : item.object_key ≡ k = ground (arith, same, text_eq_iff item.object_key k) in
          let digest : item.sha256 ≡ s = ground (arith, same, text_eq_iff item.sha256 s) in
          let known : contents_of env w k s ≡ true =
            rw (sym key) (rw (sym digest) (sym there ∙ reused)) in
          rw same (rw known refl)
      | inr other ↦ rw other (or_false _)
    ])
contents_after env w u item there (inr (reused, (a, artifacts, bucket, key, digest), _)) k s =
    rw artifacts (
      any-snoc (is_same_content env.backend.bucket k s) w.artifacts a
      ∙ rw bucket
          (rw key (rw digest (ground (arith, text_eq_iff env.backend.bucket env.backend.bucket)))))

module _ (env : StoreEnv) (before : World) where
  unchanged :
      (w u : World) (items : List ArchivedItem)
      → u.artifacts ≡ w.artifacts
      → Refines env before w items
      → Refines env before u items
  unfolding Refines
  unchanged w u items artifacts (replays, same) = (replays, λ k s. rw artifacts (same k s))

  left :
      (o : Outcome ArchivedItem) (w u : World) (items : List ArchivedItem)
      → Leaves o w u
      → ((item : ArchivedItem) → o ≢ done item)
      → Refines env before w items
      → Refines env before u items
  unfolding Leaves
  left (done item) w u items leaves other h = elim (other item refl) [ ]
  left (stopped e) w u items (_, artifacts) other h = unchanged w u items artifacts h
  left (crashed e) w u items (_, artifacts) other h = unchanged w u items artifacts h

  extended :
      (w u : World) (items : List ArchivedItem) (item : ArchivedItem)
      → item.reused ≡ contents_of env w item.object_key item.sha256
      → Stores env w item u
      → Refines env before w items
      → Refines env before u (items ++ item ∷ [])
  unfolding Refines
  extended w u items item there stores (replays, same) = (
    Replays-snoc _ items item replays (there ∙ same item.object_key item.sha256),
    λ k s.
        contents_after env w u item there stores k s
        ∙ ap (λ b. b || (text_eq item.object_key k && text_eq item.sha256 s)) (same k s)
        ∙ sym (after-snoc _ items item k s),
  )

Refines-IsKept :
    (env : Env) (id : ℕ) (code : Text) (before : World)
    → IsKept env id code (Refines env.store before)
unfolding Refines
Refines-IsKept env id code before = record {
  by_call = λ w items h. h;
  by_failure = λ request r w items h other.
      let (_, leaves) = archive-Spares env.store id (suc (length items)) code request r w in
      left env.store before _ w _ items leaves other h;
  by_archive = λ request r w items item room h e.
      let (archived, stores) =
        archive-Archival env.store id (suc (length items)) code request r w e in
      extended env.store before w _ items item archived.was_there stores h;
}

-- The table of artifacts is a set of contents under keys, as far as a collection sees: whatever the
-- collectors ask for, an item is reused exactly when its content was in the set before the batch or came
-- with an earlier item, and the set after the collection is the one before with the items' contents.
pub collect_all-Refines :
    (env : Env) (id : ℕ) (code : SecurityCode) (collectors : List Collector) (w : World)
    → let t = (collect_all env id code collectors (new_run w)).1 in
      Refines env.store w t.world t.items
unfolding Refines Replays after
collect_all-Refines env id code collectors w =
    collect_all-Holds code (Refines-IsKept env id code.code w) collectors (new_run w)
      (tt, λ k s. refl)
