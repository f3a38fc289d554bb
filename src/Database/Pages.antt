-- ===== src/Database/Pages.antt =====
-- The paged queries of the services: `findAndCount` with `skip` and `take`, and its meta data.
pub mod Cover
pub mod Rows
use nexus_panel.Common.{
  ℕ, zero, suc, ◌+◌, ◌-◌, ◌*◌, ◌/◌, ◌≤◌, ◌<◌, ◌≡◌, Bool, true, List, [], ◌∷◌, ◌++◌, nat_eq,
  if◌then◌else◌, sum_by, length, leb, Option, none, some,
}
use nexus_panel.Common.Texts.{Text, codes}
use nexus_panel.Database.Panel.{Panel, internal, M, ◌>>=◌, ◌>>◌, gets, throw_if}

-- What the services rely on of a paged query. The order of the rows need not be the same in two queries, so two pages
-- may share rows: of one page it is known how long it is, and that its rows match, none of them more often
-- than in the table, which is stated by the sums of any weight. A limit of 0, which the library takes for none, is left out.
-- `like` and `ilike` are the operators of SQL, the pattern first.
pub record Pages : Type 1 where
  pub like : (pattern value : Text) → Bool
  pub ilike : (pattern value : Text) → Bool
  pub page : {E : Type 0} → (E → Bool) → (offset limit : ℕ) → List E → List E
  pub count : {E : Type 0} → (E → Bool) → List E → ℕ
  pub page_lem :
      {E : Type 0} (p : E → Bool) (w : E → ℕ) (offset limit : ℕ) (t : List E)
      → 0 < limit
      → sum_by w (page p offset limit t) ≤ sum_by (λ e. if p e then w e else 0) t
  pub length_lem :
      {E : Type 0} (p : E → Bool) (offset limit : ℕ) (t : List E)
      → 0 < limit
      → let left = sum_by (λ e. if p e then 1 else 0) t - offset in
        length (page p offset limit t) ≡ (if leb limit left then limit else left)
  pub count_lem :
      {E : Type 0} (p : E → Bool) (t : List E) → count p t ≡ sum_by (λ e. if p e then 1 else 0) t

pub record Meta : Type 0 where
  pub total : ℕ
  pub page : ℕ
  pub per_page : ℕ
  pub total_pages : ℕ

pub record Paged (E : Type 0) : Type 0 where
  pub rows : List E
  pub meta : Meta

-- `Math.ceil(total / perPage)`.
abbrev pub total_pages : (total per_page : ℕ) → ℕ
total_pages total per_page = (total + per_page - 1) / per_page

-- The pattern of a search.
abbrev pub containing : Text → Text
containing search = codes "%" ++ (search ++ codes "%")

-- A first page of 0 makes the offset negative, which the database refuses.
unfoldable pub paginate :
    {E : Type 0} → Pages → (Panel → List E) → (E → Bool) → (page per_page : ℕ) → M (Paged E)
paginate pages table p page per_page = do
  throw_if (nat_eq page 0) internal
  rows ← gets (λ q. pages.page p ((page - 1) * per_page) per_page (table q))
  total ← gets (λ q. pages.count p (table q))
  gets (λ q. record {
    rows = rows;
    meta = record {
      total = total;
      page = page;
      per_page = per_page;
      total_pages = total_pages total per_page;
    };
  })

-- `page ? +page : d`: 0 is no page either.
abbrev pub page_or : Option ℕ → (default : ℕ) → ℕ
page_or none default = default
page_or (some zero) default = default
page_or (some (suc n)) default = suc n
