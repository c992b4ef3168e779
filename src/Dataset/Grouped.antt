-- ===== src/Dataset/Grouped.antt =====
-- The groups of `column` of app/app/application/securities/dataset/basis.py: a group has an entry for each
-- figure of its key.
use info_backend.Prelude.{
  ℕ, ◌≡◌, sym, ◌∙◌, Bool, true, false, Option, List, [], ◌∷◌, All, any, filter_by, Bool-cases, inl,
  inr,
}
use info_backend.Rows.{All-imp}
use info_backend.Dataset.Domain.{Basis, OfficialFigure}
use info_backend.Dataset.Basis.{
  Group, is_group, add_figure, is_of_column, group_figures, insert_group, sort_groups, is_earlier,
  column,
}
use info_backend.Dataset.Entries.{
  Has, Unique, group_of, one_key, any-imp, add_figure-Unique, add_figure-own, add_figure-there,
  add_figure-other, add_figure-any,
}

-- The figure has its group, and an entry in every group of its key.
abbrev Entered : OfficialFigure → List Group → Type 0
Entered figure groups = All (Has figure) groups × (any (is_group figure) groups ≡ true)

one_group :
    (other figure : OfficialFigure) (g : Group)
    → is_group other (group_of figure) ≡ true
    → is_group other g ≡ true
    → is_group figure g ≡ true
one_group other figure g h k = one_key other g (group_of figure) k h

add_figure-Entered :
    (other figure : OfficialFigure) (groups : List Group)
    → Entered other groups
    → Entered other (add_figure figure groups)
add_figure-Entered other figure groups (has, there) = (
  add_figure-other figure other groups
      (λ h. any-imp _ _ groups (λ g k. one_group other figure g h k) there) has,
  add_figure-any figure other groups there,
)

group_figures-Entered :
    (other : OfficialFigure) (chosen : List OfficialFigure) (groups : List Group)
    → Entered other groups
    → Entered other (group_figures chosen groups)
unfolding group_figures
group_figures-Entered other [] groups h = h
group_figures-Entered other (figure ∷ chosen) groups h =
    group_figures-Entered other chosen (add_figure figure groups)
      (add_figure-Entered other figure groups h)

group_figures-all :
    (chosen : List OfficialFigure) (groups : List Group)
    → Unique groups
    → All (λ figure. All (Has figure) (group_figures chosen groups)) chosen
unfolding group_figures
group_figures-all [] groups u = tt
group_figures-all (figure ∷ chosen) groups u =
    let own : Entered figure (add_figure figure groups) =
      (add_figure-own figure groups u, add_figure-there figure groups) in
    (
      (group_figures-Entered figure chosen (add_figure figure groups) own).0,
      group_figures-all chosen (add_figure figure groups) (add_figure-Unique figure groups u),
    )

module _ (P : Group → Type 0) where
  insert_group-All :
      (g : Group) (groups : List Group) → P g → All P groups → All P (insert_group g groups)
  unfolding insert_group
  insert_group-All g [] s h = (s, tt)
  insert_group-All g (x ∷ groups) s h = elim (Bool-cases (is_earlier x g)) [
    | inl e ↦ rw e (h.0, insert_group-All g groups s h.1)
    | inr e ↦ rw e (s, h)
  ]

  pub sort_groups-All : (groups : List Group) → All P groups → All P (sort_groups groups)
  unfolding sort_groups
  sort_groups-All [] h = tt
  sort_groups-All (g ∷ groups) h =
      insert_group-All g (sort_groups groups) h.0 (sort_groups-All groups h.1)

module _ {A B : Type 0} (R : A → B → Type 0) where
  All-none : (l : List B) → All (λ y. Unit {0}) l
  All-none [] = tt
  All-none (y ∷ l) = (tt, All-none l)

  All-and : (P Q : B → Type 0) (l : List B) → All P l → All Q l → All (λ y. P y × Q y) l
  All-and P Q [] h k = tt
  All-and P Q (y ∷ l) h k = ((h.0, k.0), All-and P Q l h.1 k.1)

  -- What each of one list has with all of another
  All-swap : (k : List A) (l : List B) → All (λ x. All (R x) l) k → All (λ y. All (λ x. R x y) k) l
  All-swap [] l h = All-none l
  All-swap (x ∷ k) l h = All-and (R x) (λ y. All (λ z. R z y) k) l h.0 (All-swap k l h.1)

All-chosen :
    {A : Type 0} (P : A → Type 0) (p : A → Bool) (l : List A)
    → All P (filter_by p l)
    → All (λ x. p x ≡ true → P x) l
All-chosen P p [] h = tt
All-chosen P p (x ∷ l) h = elim (Bool-cases (p x)) [
  | inl here ↦
      let both : All P (x ∷ filter_by p l) = rw here at h in (λ k. both.0, All-chosen P p l both.1)
  | inr away ↦ (λ k. let clash : false ≡ true = sym away ∙ k in cc, All-chosen P p l (rw away at h))
]

-- Each figure of the column has an entry in the group of its key.
pub column_complete :
    (year : ℕ) (figures : List OfficialFigure) (basis : Basis) (own : Option Bool)
    → All
        (λ g. All (λ figure. is_of_column year basis own figure ≡ true → Has figure g) figures)
        (column year figures basis own)
unfolding column
column_complete year figures basis own =
    let chosen = filter_by (is_of_column year basis own) figures in
    sort_groups-All _ (group_figures chosen []) (
      All-imp _ _ (group_figures chosen [])
        (λ g h. All-chosen (λ figure. Has figure g) (is_of_column year basis own) figures h)
        (All-swap Has chosen (group_figures chosen []) (group_figures-all chosen [] tt)))
