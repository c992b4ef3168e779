-- ===== src/Rows.antt =====
-- Searches, sorts and updates of tables: what holds of all rows holds of the rows found.
use info_backend.Prelude.{
  ℕ, ◌≡◌, refl, subst, Bool, true, false, none, some, List, [], ◌∷◌, ◌++◌, arith, All, find?,
  update, any, insert_by, sort_by, leb, Bool-cases, inl, inr, ◌⊎◌,
}

module _ {A : Type 0} where
  All-insert_by :
      (P : A → Type 0) (key : A → ℕ) (x : A) (l : List A)
      → P x
      → All P l
      → All P (insert_by key x l)
  All-insert_by P key x [] p h = (p, tt)
  All-insert_by P key x (y ∷ l) p h = elim (Bool-cases (leb (key x) (key y))) [
    | inl e ↦ rw e (p, h)
    | inr e ↦ rw e (h.0, All-insert_by P key x l p h.1)
  ]

  pub All-sort_by : (P : A → Type 0) (key : A → ℕ) (l : List A) → All P l → All P (sort_by key l)
  All-sort_by P key [] h = tt
  All-sort_by P key (x ∷ l) h = All-insert_by P key x (sort_by key l) h.0 (All-sort_by P key l h.1)

  pub find?-holds :
      (P : A → Type 0) (p : A → Bool) (l : List A) {x : A}
      → All P l
      → find? p l ≡ some x
      → P x × (p x ≡ true)
  find?-holds P p [] h e = cc
  find?-holds P p (y ∷ l) {x} h e = elim (Bool-cases (p y)) [
    | inl b ↦
        let same : y ≡ x = ground (arith, b, e) in subst (λ z. P z × (p z ≡ true)) same (h.0, b)
    | inr b ↦ find?-holds P p l h.1 (ground (arith, b, e))
  ]

  pub All-update_rows :
      (P Q : A → Type 0) (p : A → Bool) (f : A → A) (l : List A)
      → ((x : A) → P x → p x ≡ true → Q (f x))
      → ((x : A) → P x → p x ≡ false → Q x)
      → All P l
      → All Q (update p f l)
  All-update_rows P Q p f [] hit miss h = tt
  All-update_rows P Q p f (x ∷ l) hit miss h = elim (Bool-cases (p x)) [
    | inl e ↦ rw e (hit x h.0 e, All-update_rows P Q p f l hit miss h.1)
    | inr e ↦ rw e (miss x h.0 e, All-update_rows P Q p f l hit miss h.1)
  ]

  pub any-append : (p : A → Bool) (l m : List A) → any p l ≡ true → any p (l ++ m) ≡ true
  any-append p [] m h = cc
  any-append p (x ∷ l) m h = ground (arith, any-append p l m)

  pub any-last : (p : A → Bool) (l : List A) (x : A) → p x ≡ true → any p (l ++ x ∷ []) ≡ true
  any-last p [] x h = ground (arith)
  any-last p (y ∷ l) x h = ground (arith, any-last p l x h)

  pub find?-nowhere : (p : A → Bool) (l : List A) → All (λ x. p x ≡ false) l → find? p l ≡ none
  find?-nowhere p [] h = refl
  find?-nowhere p (x ∷ l) h = rw h.0 (find?-nowhere p l h.1)

  pub All-imp : (P Q : A → Type 0) (l : List A) → ((x : A) → P x → Q x) → All P l → All Q l
  All-imp P Q [] f h = tt
  All-imp P Q (x ∷ l) f h = (f x h.0, All-imp P Q l f h.1)

  -- an element is one of those that a test holds for
  pub All-member : (l : List A) → All (λ x. (p : A → Bool) → p x ≡ true → any p l ≡ true) l
  All-member [] = tt
  All-member (x ∷ l) = (
    λ p e. ground (arith, e),
    All-imp _ _ l (λ y later p e. let rest = later p e in ground (arith, rest)) (All-member l),
  )

  pub All-append : (P : A → Type 0) (l m : List A) → All P l → All P m → All P (l ++ m)
  All-append P [] m h k = k
  All-append P (x ∷ l) m h k = (h.0, All-append P l m h.1 k)

  -- The element is one of the list.
  abbrev pub Among : A → List A → Type 0
  Among x [] = false ≡ true
  Among x (y ∷ l) = (y ≡ x) ⊎ Among x l

  pub All-Among : (l : List A) → All (λ x. Among x l) l
  All-Among [] = tt
  All-Among (x ∷ l) = (inl refl, All-imp _ _ l (λ y h. inr h) (All-Among l))

  pub Among-append_left : (x : A) (l m : List A) → Among x l → Among x (l ++ m)
  Among-append_left x [] m h = cc
  Among-append_left x (y ∷ l) m (inl e) = inl e
  Among-append_left x (y ∷ l) m (inr h) = inr (Among-append_left x l m h)

  pub Among-append_right : (x : A) (l m : List A) → Among x m → Among x (l ++ m)
  Among-append_right x [] m h = h
  Among-append_right x (y ∷ l) m h = inr (Among-append_right x l m h)
