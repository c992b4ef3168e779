-- ===== src/Dataset/Evidence.antt =====
-- The reports that `column` of app/app/application/securities/dataset/basis.py groups, and what agreement
-- with one is.
use info_backend.Prelude.{
  ℕ, ◌≤◌, ◌≡◌, sym, subst, Bool, true, false, ◌&&◌, Option, some, List, [], ◌∷◌, arith, All, any,
  all, filter_by, length, Text, text_eq, text_eq_iff, Bool-cases, inl, inr, ltb, ◌==◌,
}
use info_backend.Rows.{All-member, All-Among, Among}
use info_backend.Dataset.Domain.{Floats, Float, Basis, is_basis, OfficialFigure}
use info_backend.Dataset.Grouped.{column_complete, sort_groups-All}
use info_backend.Dataset.Entries.{Has}
use info_backend.Dataset.Basis.{
  Values, Column, find_value, put_value, min_items, is_common, is_close, agrees, Group, is_group,
  entry_of, add_figure, is_of_column, group_figures, column, is_true, first_agreeing,
}

-- The figure is the entry of the report's column.
abbrev pub is_figure_of : ℕ → Basis → Text → Text × (Float × Float) → OfficialFigure → Bool
is_figure_of year basis report entry figure =
    figure.fiscal_year == year
    && is_basis figure.basis basis
    && text_eq figure.source_report report
    && text_eq figure.item entry.0
    && figure.value == entry.1.0
    && figure.precision == entry.1.1

-- The report heads a group of the column: the group is one of those that the figures of the year and the
-- basis are put into, all its entries are such figures of the report, it has an entry for the item of each
-- such figure of its key, at least three entries can be compared with the values, and all that can be
-- compared are close.
pub record IsEvidence (f : Floats) (values : Values) (figures : List OfficialFigure) (year : ℕ)
    (basis : Basis) (report : Text) : Type 0 where
  pub own : Option Bool
  pub group : Group
  pub grouped : Among group (column year figures basis own)
  pub complete :
      All (λ figure. is_of_column year basis own figure ≡ true → Has figure group) figures
  pub of_report : group.source_report ≡ report
  pub from_report :
      All (λ entry. any (is_figure_of year basis report entry) figures ≡ true) group.figures
  pub enough : min_items ≤ length (filter_by (is_common values) group.figures)
  pub close :
      all
        (λ entry. is_close f (find_value entry.0 values) entry.1)
        (filter_by (is_common values) group.figures)
      ≡ true

agrees-close :
    (f : Floats) (values : Values) (shown : Column)
    → is_true (agrees f values shown) ≡ true
    → (min_items ≤ length (filter_by (is_common values) shown))
      × (all
            (λ entry. is_close f (find_value entry.0 values) entry.1)
            (filter_by (is_common values) shown)
          ≡ true)
unfolding agrees
agrees-close f values shown h =
    elim (Bool-cases (ltb (length (filter_by (is_common values) shown)) min_items)) [
      | inl few ↦ let clash : false ≡ true = rw few at h in cc
      | inr enough ↦ (ground (arith, enough), rw enough at h)
    ]

module _ (figures : List OfficialFigure) (year : ℕ) (basis : Basis) where
  abbrev Known : Text → Text × (Float × Float) → Type 0
  Known report entry = any (is_figure_of year basis report entry) figures ≡ true

  -- All figures of a group are those of its report.
  abbrev Sourced : Group → Type 0
  Sourced g = All (Known g.source_report) g.figures

  put_value-Known :
      (report name : Text) (v : Float × Float) (shown : Column)
      → Known report (name, v)
      → All (Known report) shown
      → All (Known report) (put_value name v shown)
  unfolding put_value
  put_value-Known report name v [] k h = (k, tt)
  put_value-Known report name v ((key, w) ∷ shown) k h = elim (Bool-cases (text_eq key name)) [
    | inl same ↦
        let e : name ≡ key = sym (ground (arith, same, text_eq_iff key name)) in
        rw same (subst (λ z. Known report (z, v)) e k, h.1)
    | inr other ↦ rw other (h.0, put_value-Known report name v shown k h.1)
  ]

  add_figure-Sourced :
      (figure : OfficialFigure) (groups : List Group)
      → Known figure.source_report (figure.item, entry_of figure)
      → All Sourced groups
      → All Sourced (add_figure figure groups)
  unfolding add_figure
  add_figure-Sourced figure [] k h = ((k, tt), tt)
  add_figure-Sourced figure (g ∷ groups) k h = elim (Bool-cases (is_group figure g)) [
    | inl same ↦
        let e : figure.source_report ≡ g.source_report =
          sym (ground (arith, same, text_eq_iff g.source_report figure.source_report)) in
        let known = subst (λ z. Known z (figure.item, entry_of figure)) e k in
        rw same
          (put_value-Known g.source_report figure.item (entry_of figure) g.figures known h.0, h.1)
    | inr other ↦ rw other (h.0, add_figure-Sourced figure groups k h.1)
  ]

  group_figures-Sourced :
      (chosen : List OfficialFigure) (groups : List Group)
      → All (λ figure. Known figure.source_report (figure.item, entry_of figure)) chosen
      → All Sourced groups
      → All Sourced (group_figures chosen groups)
  unfolding group_figures
  group_figures-Sourced [] groups k h = h
  group_figures-Sourced (figure ∷ chosen) groups k h =
      group_figures-Sourced chosen (add_figure figure groups) k.1
        (add_figure-Sourced figure groups k.0 h)

  is_figure_of_self :
      (own : Option Bool) (figure : OfficialFigure)
      → is_of_column year basis own figure ≡ true
      → is_figure_of year basis figure.source_report (figure.item, entry_of figure) figure ≡ true
  is_figure_of_self own figure h = ground (
    arith,
    h,
    text_eq_iff figure.source_report figure.source_report,
    text_eq_iff figure.item figure.item,
  )

  chosen-Known :
      (own : Option Bool) (l : List OfficialFigure)
      → All (λ x. (p : OfficialFigure → Bool) → p x ≡ true → any p figures ≡ true) l
      → All
          (λ figure. Known figure.source_report (figure.item, entry_of figure))
          (filter_by (is_of_column year basis own) l)
  chosen-Known own [] h = tt
  chosen-Known own (x ∷ l) h = elim (Bool-cases (is_of_column year basis own x)) [
    | inl e ↦ rw e (
      h.0 (is_figure_of year basis x.source_report (x.item, entry_of x))
          (is_figure_of_self own x e),
      chosen-Known own l h.1,
    )
    | inr e ↦ rw e (chosen-Known own l h.1)
  ]

  pub column-Sourced : (own : Option Bool) → All Sourced (column year figures basis own)
  unfolding column
  column-Sourced own = sort_groups-All Sourced _ (
      group_figures-Sourced (filter_by (is_of_column year basis own) figures) []
        (chosen-Known own figures (All-member figures)) tt)

  -- A group of one of the columns of the basis
  abbrev pub IsGrouped : Group → Type 0
  IsGrouped g =
      Sourced g
      × ((own : Option Bool) × Among g (column year figures basis own)
          × All (λ figure. is_of_column year basis own figure ≡ true → Has figure g) figures)

  pub column-IsGrouped : (own : Option Bool) → All IsGrouped (column year figures basis own)
  column-IsGrouped own =
      let groups = column year figures basis own in
      grouped own groups (column-Sourced own) (All-Among groups)
        (column_complete year figures basis own)
    where
      grouped :
          (own : Option Bool) (l : List Group)
          → All Sourced l
          → All (λ g. Among g (column year figures basis own)) l
          → All
              (λ g.
                All (λ figure. is_of_column year basis own figure ≡ true → Has figure g) figures)
              l
          → All IsGrouped l
      grouped own [] h k c = tt
      grouped own (g ∷ l) h k c = ((h.0, (own, k.0, c.0)), grouped own l h.1 k.1 c.1)

  -- The report that is found has the evidence.
  pub first_agreeing-IsEvidence :
      (f : Floats) (values : Values) (groups : List Group) {report : Text}
      → All IsGrouped groups
      → first_agreeing f values groups ≡ some report
      → IsEvidence f values figures year basis report
  unfolding first_agreeing
  first_agreeing-IsEvidence f values [] s e = cc
  first_agreeing-IsEvidence f values (g ∷ groups) {report} s e =
      elim (Bool-cases (is_true (agrees f values g.figures))) [
        | inl agreed ↦
            let same : g.source_report ≡ report = ground (arith, agreed, e) in
            let (enough, close) = agrees-close f values g.figures agreed in
            let (sourced, (own, among, complete)) = s.0 in
            record {
              own = own;
              group = g;
              grouped = among;
              complete = complete;
              of_report = same;
              from_report = subst (λ z. All (Known z) g.figures) same sourced;
              enough = enough;
              close = close;
            }
        | inr other ↦ first_agreeing-IsEvidence f values groups s.1 (rw other at e)
      ]
