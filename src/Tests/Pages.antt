-- ===== src/Tests/Pages.antt =====
-- A paged query that meets the laws, and the pages of a small table.
use nexus_panel.Common.{
  take, drop, ℕ, zero, suc, ◌-◌, leb, ◌≤◌, ◌≡◌, refl, ◌⊎◌, Bool, false, none, some, List, [], ◌∷◌,
  arith, select, sum_by, if◌then◌else◌, length, All,
}
use nexus_panel.Common.Texts.{codes, ◌==◌}
use nexus_panel.Database.Entities.{Allocation}
use nexus_panel.Database.Orm.{list_store}
use nexus_panel.Database.Pages.{Pages, Paged}
use nexus_panel.Database.Panel.{Panel, ok, err, internal}
use nexus_panel.Servers.Service.{Loaded}
use nexus_panel.Servers.Listing.{find_all}
use nexus_panel.Servers.Listing.Own.{IsOwned, find_all-IsOwned}
use nexus_panel.Tests.Data.{panel}

pub sum_by-select :
    {E : Type 0} (p : E → Bool) (w : E → ℕ) (t : List E)
    → sum_by w (select p t) ≡ sum_by (λ e. if p e then w e else 0) t
sum_by-select p w [] = refl
sum_by-select p w (x ∷ xs) = ground (arith, sum_by-select p w xs)

module _ {E : Type 0} (w : E → ℕ) where
  pub sum_by-take : (n : ℕ) (xs : List E) → sum_by w (take n xs) ≤ sum_by w xs
  sum_by-take zero xs = omega arith
  sum_by-take (suc n) [] = omega arith
  sum_by-take (suc n) (x ∷ xs) = omega (arith, sum_by-take n xs)

  pub sum_by-drop : (n : ℕ) (xs : List E) → sum_by w (drop n xs) ≤ sum_by w xs
  sum_by-drop zero xs = omega arith
  sum_by-drop (suc n) [] = omega arith
  sum_by-drop (suc n) (x ∷ xs) = omega (arith, sum_by-drop n xs)

module _ {E : Type 0} where
  pub length-take :
      (n : ℕ) (xs : List E) → length (take n xs) ≡ (if leb n (length xs) then n else length xs)
  length-take zero xs = ground arith
  length-take (suc n) [] = ground arith
  length-take (suc n) (x ∷ xs) = ground (arith, length-take n xs)

  pub length-drop : (n : ℕ) (xs : List E) → length (drop n xs) ≡ length xs - n
  length-drop zero xs = omega arith
  length-drop (suc n) [] = omega arith
  length-drop (suc n) (x ∷ xs) = omega (arith, length-drop n xs)

  pub length-select :
      (p : E → Bool) (xs : List E) → length (select p xs) ≡ sum_by (λ e. if p e then 1 else 0) xs
  length-select p [] = refl
  length-select p (x ∷ xs) = ground (arith, length-select p xs)

-- The rows that match, in the order of the table.
abbrev pub list_pages : Pages
list_pages = record {
  like = λ p v. p == v;
  ilike = λ p v. p == v;
  page = λ p offset limit t. take limit (drop offset (select p t));
  count = λ p t. sum_by (λ e. if p e then 1 else 0) t;
  page_lem = λ p w offset limit t h. omega (
    arith,
    sum_by-take w limit (drop offset (select p t)),
    sum_by-drop w offset (select p t),
    sum_by-select p w t,
  );
  length_lem = λ p offset limit t h.
      rw (length-take limit (drop offset (select p t)))
        (rw (length-drop offset (select p t)) (rw (length-select p t) refl));
  count_lem = λ p t. refl;
}

abbrev of_node : Allocation → Bool
of_node a = a.node_id == codes "n1"

abbrev allocations : Panel → List Allocation
allocations p = p.allocations

find_all-IsOwned_example :
    ((let n : ℕ = 1 in n ≡ 0)
      × (find_all list_store list_pages 1 25 (some (codes "u1")) false none panel
          ≡ (err internal, panel)))
    ⊎ ((found : Paged Loaded) × (find_all list_store list_pages 1 25
            (some (codes "u1"))
            false
            none
            panel
          ≡ (ok found, panel))
        × All (IsOwned (codes "u1")) found.rows)
find_all-IsOwned_example =
    find_all-IsOwned list_store list_pages 1 25 b'u' (codes "1") none panel (omega arith)
