-- ===== src/Dataset/Entries.antt =====
-- The entries that a figure makes in the groups of `column`: `grouped.setdefault(key, {})[f.item] = ...` of
-- app/app/application/securities/dataset/basis.py.
use info_backend.Prelude.{
  ◌≡◌, refl, sym, ◌∙◌, Bool, true, false, ◌&&◌, List, [], ◌∷◌, arith, All, any, is_some, Text,
  text_eq, text_eq_iff, Bool-cases, inl, inr,
}
use info_backend.Dataset.Domain.{Float, OfficialFigure}
use info_backend.Dataset.Basis.{
  Column, find_value, put_value, Group, is_group, same_flag, entry_of, add_figure,
}

-- A group of the figure's key has an entry for the figure's item.
abbrev pub Has : OfficialFigure → Group → Type 0
Has figure g = is_group figure g ≡ true → is_some (find_value figure.item g.figures) ≡ true

abbrev pub same_key : Group → Group → Bool
same_key g h =
    text_eq g.disclosed_date h.disclosed_date
    && same_flag g.revised_report h.revised_report
    && text_eq g.source_report h.source_report

-- No two groups have their key in common.
abbrev pub Unique : List Group → Type 0
Unique [] = Unit
Unique (g ∷ groups) = All (λ h. same_key g h ≡ false) groups × Unique groups

same_flag_trans :
    (a b c : Bool) → same_flag a c ≡ true → same_flag b c ≡ true → same_flag a b ≡ true
same_flag_trans true true c h k = refl
same_flag_trans false false c h k = refl
same_flag_trans true false true h k = cc
same_flag_trans true false false h k = cc
same_flag_trans false true true h k = cc
same_flag_trans false true false h k = cc

text_eq_trans : (s t u : Text) → text_eq s u ≡ true → text_eq t u ≡ true → text_eq s t ≡ true
text_eq_trans s t u h k = ground (arith, h, k, text_eq_iff s u, text_eq_iff t u, text_eq_iff s t)

pub one_key :
    (figure : OfficialFigure) (g h : Group)
    → is_group figure g ≡ true
    → is_group figure h ≡ true
    → same_key g h ≡ true
one_key figure g h p q = ground (
  arith,
  p,
  q,
  text_eq_trans g.disclosed_date h.disclosed_date figure.disclosed_date,
  text_eq_trans g.source_report h.source_report figure.source_report,
  same_flag_trans g.revised_report h.revised_report figure.revised_report,
)

find_value-put_value :
    (name : Text) (v : Float × Float) (l : Column)
    → is_some (find_value name (put_value name v l)) ≡ true
unfolding find_value put_value
find_value-put_value name v [] = rw ((text_eq_iff name name).1 refl) refl
find_value-put_value name v ((k, w) ∷ l) = elim (Bool-cases (text_eq k name)) [
  | inl same ↦ rw same (rw same refl)
  | inr other ↦ rw other (rw other (find_value-put_value name v l))
]

put_value-keeps :
    (key name : Text) (v : Float × Float) (l : Column)
    → is_some (find_value key l) ≡ true
    → is_some (find_value key (put_value name v l)) ≡ true
unfolding find_value put_value
put_value-keeps key name v [] h = cc
put_value-keeps key name v ((k, w) ∷ l) h = elim (Bool-cases (text_eq k name)) [
  | inl same ↦ elim (Bool-cases (text_eq k key)) [
    | inl found ↦ rw same (rw found refl)
    | inr away ↦ rw same (rw away (rw away at h))
  ]
  | inr other ↦ elim (Bool-cases (text_eq k key)) [
    | inl found ↦ rw other (rw found refl)
    | inr away ↦ rw other (rw away (put_value-keeps key name v l (rw away at h)))
  ]
]

abbrev pub group_of : OfficialFigure → Group
group_of figure = record {
  disclosed_date = figure.disclosed_date;
  revised_report = figure.revised_report;
  source_report = figure.source_report;
  figures = (figure.item, entry_of figure) ∷ [];
}

-- Groups that follow one of the figure's key have another key.
no_second :
    (figure : OfficialFigure) (g : Group) (groups : List Group)
    → is_group figure g ≡ true
    → All (λ h. same_key g h ≡ false) groups
    → All (Has figure) groups
no_second figure g [] own h = tt
no_second figure g (x ∷ groups) own h = (
  λ k. let clash : false ≡ true = sym h.0 ∙ one_key figure g x own k in cc,
  no_second figure g groups own h.1,
)

module _ (figure : OfficialFigure) where
  add_figure-differs :
      (g : Group) (groups : List Group)
      → same_key g (group_of figure) ≡ false
      → All (λ h. same_key g h ≡ false) groups
      → All (λ h. same_key g h ≡ false) (add_figure figure groups)
  unfolding add_figure
  add_figure-differs g [] new h = (new, tt)
  add_figure-differs g (x ∷ groups) new h = elim (Bool-cases (is_group figure x)) [
    | inl same ↦ rw same (h.0, h.1)
    | inr other ↦ rw other (h.0, add_figure-differs g groups new h.1)
  ]

  pub add_figure-Unique : (groups : List Group) → Unique groups → Unique (add_figure figure groups)
  unfolding add_figure
  add_figure-Unique [] u = (tt, tt)
  add_figure-Unique (g ∷ groups) u = elim (Bool-cases (is_group figure g)) [
    | inl same ↦ rw same u
    | inr other ↦ rw other (add_figure-differs g groups other u.0, add_figure-Unique groups u.1)
  ]

  pub add_figure-own :
      (groups : List Group) → Unique groups → All (Has figure) (add_figure figure groups)
  unfolding add_figure
  add_figure-own [] u = (λ k. find_value-put_value figure.item (entry_of figure) [], tt)
  add_figure-own (g ∷ groups) u = elim (Bool-cases (is_group figure g)) [
    | inl same ↦ rw same (
      λ k. find_value-put_value figure.item (entry_of figure) g.figures,
      no_second figure g groups same u.0,
    )
    | inr other ↦
        rw other (λ k. let clash : false ≡ true = sym other ∙ k in cc, add_figure-own groups u.1)
  ]

  pub add_figure-there :
      (groups : List Group) → any (is_group figure) (add_figure figure groups) ≡ true
  unfolding add_figure
  add_figure-there [] = ground (
    arith,
    text_eq_iff figure.disclosed_date figure.disclosed_date,
    text_eq_iff figure.source_report figure.source_report,
  )
  add_figure-there (g ∷ groups) = elim (Bool-cases (is_group figure g)) [
    | inl same ↦ rw same (ground (arith, same))
    | inr other ↦ rw other (ground (arith, add_figure-there groups))
  ]

  -- A group that is there already takes the figure, if it has its key.
  pub add_figure-other :
      (other : OfficialFigure) (groups : List Group)
      → (is_group other (group_of figure) ≡ true → any (is_group figure) groups ≡ true)
      → All (Has other) groups
      → All (Has other) (add_figure figure groups)
  unfolding add_figure
  add_figure-other other [] new h = (λ k. let clash = new k in cc, tt)
  add_figure-other other (g ∷ groups) new h = elim (Bool-cases (is_group figure g)) [
    | inl same ↦
        rw same
          (λ k. put_value-keeps other.item figure.item (entry_of figure) g.figures (h.0 k), h.1)
    | inr away ↦ rw away (
      h.0,
      add_figure-other other groups (λ k. let there = new k in ground (arith, there, away)) h.1,
    )
  ]

  pub add_figure-any :
      (other : OfficialFigure) (groups : List Group)
      → any (is_group other) groups ≡ true
      → any (is_group other) (add_figure figure groups) ≡ true
  unfolding add_figure
  add_figure-any other [] h = cc
  add_figure-any other (g ∷ groups) h = elim (Bool-cases (is_group figure g)) [
    | inl same ↦ rw same h
    | inr away ↦ elim (Bool-cases (is_group other g)) [
      | inl here ↦ rw away (ground (arith, here))
      | inr later ↦ rw away (ground (arith, add_figure-any other groups, h, later))
    ]
  ]

pub any-imp :
    {A : Type 0} (p q : A → Bool) (l : List A)
    → ((x : A) → p x ≡ true → q x ≡ true)
    → any p l ≡ true
    → any q l ≡ true
any-imp p q [] f h = h
any-imp p q (x ∷ l) f h = elim (Bool-cases (p x)) [
  | inl here ↦ let there = f x here in ground (arith, there)
  | inr away ↦ let later = any-imp p q l f (ground (arith, h, away)) in ground (arith, later)
]
