-- ===== src/Database/Pages/Rows.antt =====
-- What holds of every row of a page.
use nexus_panel.Common.{
  ℕ, ◌<◌, ◌≡◌, refl, Bool, true, List, [], ◌∷◌, arith, sum_by, All, if◌then◌else◌, Bool-cases, inl,
  inr,
}
use nexus_panel.Database.Pages.{Pages}

module _ {E : Type 0} (q : E → Bool) where
  -- 1 for a row that fails the test.
  abbrev fails : E → ℕ
  fails e = if q e then 0 else 1

  abbrev pub Pass : List E → Type 0
  Pass t = All (λ e. q e ≡ true) t

  sum-Pass : (t : List E) → sum_by fails t ≡ 0 → Pass t
  sum-Pass [] h = tt
  sum-Pass (x ∷ xs) h = elim (Bool-cases (q x)) [
    | inl e ↦ (e, sum-Pass xs (ground arith))
    | inr e ↦ absurd (ground arith)
  ]

  sum_zero :
      (p : E → Bool) (t : List E)
      → ((e : E) → p e ≡ true → q e ≡ true)
      → sum_by (λ e. if p e then fails e else 0) t ≡ 0
  sum_zero p [] h = refl
  sum_zero p (x ∷ xs) h = ground (arith, sum_zero p xs h, h x)

  -- A test that the condition of a query implies holds of every row of its pages.
  pub page-Pass :
      (pages : Pages) (p : E → Bool) (offset limit : ℕ) (t : List E)
      → 0 < limit
      → ((e : E) → p e ≡ true → q e ≡ true)
      → Pass (pages.page p offset limit t)
  page-Pass pages p offset limit t l h =
      sum-Pass (pages.page p offset limit t)
        (omega (arith, pages.page_lem p fails offset limit t l, sum_zero p t h))
