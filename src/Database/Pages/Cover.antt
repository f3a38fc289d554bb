-- ===== src/Database/Pages/Cover.antt =====
-- What the meta data of a paged query says of its pages.
use nexus_panel.Common.{ℕ, zero, suc, Bool, List, [], ◌++◌, sum_by, if◌then◌else◌}
use nexus_panel.Database.Panel.{Panel, Result, ok, err}
use nexus_panel.Database.Pages.{Pages, Paged, paginate}

module _ {E : Type 0} (pages : Pages) (table : Panel → List E) (p : E → Bool) (q : Panel) where
  abbrev pub rows_of : Result (Paged E) × Panel → List E
  rows_of (ok page, r) = page.rows
  rows_of (err e, r) = []

  -- The rows of the first pages, one page after the other.
  abbrev pub first_pages : (per_page count : ℕ) → List E
  first_pages per_page zero = []
  first_pages per_page (suc n) =
      first_pages per_page n ++ rows_of (paginate pages table p (suc n) per_page q)

  -- How many rows match.
  abbrev pub matching : ℕ
  matching = sum_by (λ e. if p e then 1 else 0) (table q)
