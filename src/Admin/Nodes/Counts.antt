-- ===== src/Admin/Nodes/Counts.antt =====
-- packages/backend/src/admin/admin-nodes.controller.ts: what the list of nodes shows.
use mathlib.Core.Option.{get_or}
use nexus_panel.Common.{
  ℕ, ◌≡◌, refl, sym, ◌∙◌, ap, ltb, ◌⊎◌, inl, inr, true, Option, some, List, [], ◌∷◌, map, Has, All,
  is_some, arith, Option-cases, Bool-cases,
}
use nexus_panel.Common.Dicts
use nexus_panel.Common.Dicts.{lookup-insert}
use nexus_panel.Common.Texts.{Text, ◌==◌, eq_iff}
use nexus_panel.Database.Entities.{Node, Server}
use nexus_panel.Database.Orm.{Orm}
use nexus_panel.Database.Pages.{page_or, Pages, Paged}
use nexus_panel.Database.Panel.{Panel, ok}
use nexus_panel.Nodes.Service
use nexus_panel.Nodes.Service.{node_id}
use nexus_panel.Admin.Nodes.{
  servers_on, GroupedCounts, ListedNode, fill, listed, count_servers, find_all,
}

fill_sound :
    (k : Text) (n : ℕ) (rows m : List (Text × ℕ))
    → Dicts.lookup k (fill rows m) ≡ some n
    → Has (k, n) rows ⊎ (Dicts.lookup k m ≡ some n)
fill_sound k n [] m h = inr h
fill_sound k n ((j, v) ∷ rows) m h = elim (fill_sound k n rows (Dicts.insert j v m) h) [
  | inl x ↦ inl (inr x)
  | inr e ↦
      let e' = sym (lookup-insert j k v m) ∙ e in
      elim (Bool-cases (j == k)) [
        | inl q ↦
            inl (inl (let f = (eq_iff j k).0 q in let g : some v ≡ some n = rw (q) at e' in cc))
        | inr q ↦ inr (rw (q) at e')
      ]
]

fill_keeps :
    (k : Text) (rows m : List (Text × ℕ))
    → is_some (Dicts.lookup k m) ≡ true
    → is_some (Dicts.lookup k (fill rows m)) ≡ true
fill_keeps k [] m h = h
fill_keeps k ((j, v) ∷ rows) m h =
    fill_keeps k rows (Dicts.insert j v m) (ground (arith, lookup-insert j k v m))

fill_complete :
    (k : Text) (n : ℕ) (rows m : List (Text × ℕ))
    → Has (k, n) rows
    → is_some (Dicts.lookup k (fill rows m)) ≡ true
fill_complete k n [] m h = absurd h
fill_complete k n ((j, v) ∷ rows) m (inl e) =
    fill_keeps k rows (Dicts.insert j v m)
      (ground (arith, lookup-insert j k v m, eq_iff j k, ap (λ z. z.0) e))
fill_complete k n ((j, v) ∷ rows) m (inr h) = fill_complete k n rows (Dicts.insert j v m) h

module _ (grouped : GroupedCounts) (t : List Server) where
  -- The number that is shown for a node of the page.
  count_lem :
      (ids : List Text) (k : Text)
      → Has k ids
      → get_or (Dicts.lookup k (fill (grouped.counts ids t) [])) 0 ≡ servers_on k t
  count_lem ids k h = elim (Option-cases (Dicts.lookup k (fill (grouped.counts ids t) []))) [
    | inl e ↦ elim (Bool-cases (ltb 0 (servers_on k t))) [
      | inl q ↦
          let found =
            fill_complete k (servers_on k t) (grouped.counts ids t) []
              (grouped.counts_complete ids t k h q) in
          absurd (
            let g : is_some (Dicts.lookup k (fill (grouped.counts ids t) [])) ≡ true = found in
            ground arith)
      | inr q ↦ rw (e) (ground arith)
    ]
    | inr (n, e) ↦ elim (fill_sound k n (grouped.counts ids t) [] e) [
      | inl x ↦ rw (e) (grouped.counts_sound ids t k n x)
      | inr x ↦ absurd (ground arith)
    ]
  ]

-- What is shown of a node: the true number of its servers, and no allocation.
abbrev pub IsCounted : Panel → ListedNode → Type 0
IsCounted p l = (l.server_count ≡ servers_on l.node.id p.servers) × (l.allocation_count ≡ 0)

map-listed :
    (orm : Orm) (counts : List (Text × ℕ)) (now : ℕ) (p : Panel) (t : List Node)
    → map (λ l. l.node) (map (listed orm counts now p) t) ≡ t
map-listed orm counts now p [] = refl
map-listed orm counts now p (n ∷ t) = ap (λ r. n ∷ r) (map-listed orm counts now p t)

listed-IsCounted :
    (orm : Orm) (counts : List (Text × ℕ)) (now : ℕ) (p : Panel) (t : List Node)
    → ((k : Text)
        → Has k (map node_id t)
        → get_or (Dicts.lookup k counts) 0 ≡ servers_on k p.servers)
    → All (IsCounted p) (map (listed orm counts now p) t)
listed-IsCounted orm counts now p [] h = tt
listed-IsCounted orm counts now p (n ∷ t) h =
    ((h n.id (inl refl), refl), listed-IsCounted orm counts now p t (λ k m. h k (inr m)))

count_servers-IsCounted :
    (orm : Orm) (grouped : GroupedCounts) (now : ℕ) (p : Panel) (t : List Node)
    → All (IsCounted p) (map (listed orm (count_servers orm grouped t p.servers) now p) t)
unfolding count_servers
count_servers-IsCounted orm grouped now p [] = tt
count_servers-IsCounted orm grouped now p (n ∷ t) =
    listed-IsCounted orm (fill (grouped.counts (map node_id (n ∷ t)) p.servers) []) now p (n ∷ t)
      (λ k h. count_lem grouped p.servers (map node_id (n ∷ t)) k h)

-- A page of the administration shows the nodes of the same page of the nodes service, in its order and with its
-- meta data. Each comes with the true number of its servers, from one query for the whole page, and with no
-- allocation, however many it has.
pub find_all_lem :
    (orm : Orm) (pages : Pages) (grouped : GroupedCounts) (now : ℕ) (page per_page : Option ℕ)
    (search : Option Text) (p : Panel) (found : Paged Node)
    → Service.find_all orm pages (page_or page 1) (page_or per_page 25) search p ≡ (ok found, p)
    → (listing : Paged ListedNode) × (find_all orm pages grouped now page per_page search p
        ≡ (ok listing, p))
      × (map (λ l. l.node) listing.rows ≡ found.rows)
      × (listing.meta ≡ found.meta)
      × All (IsCounted p) listing.rows
unfolding Service.find_all find_all
find_all_lem orm pages grouped now page per_page search p found h =
    let counts = count_servers orm grouped found.rows p.servers in
    (
      record { rows = map (listed orm counts now p) found.rows; meta = found.meta },
      rw (h) refl,
      map-listed orm counts now p found.rows,
      refl,
      count_servers-IsCounted orm grouped now p found.rows,
    )
