-- ===== src/Servers/Listing/Own.antt =====
-- packages/backend/src/servers/servers.service.ts: what the list of servers shows to whom.
use nexus_panel.Common.{
  ℕ, ◌-◌, ◌*◌, ◌<◌, nat_eq, ◌≡◌, refl, Bool, true, false, ◌&&◌, Option, some, List, [], ◌∷◌, arith,
  All, ◌⊎◌, inl, inr, Bool-cases,
}
use nexus_panel.Common.Texts.{Text, ◌==◌, eq_iff}
use nexus_panel.Database.Entities.{Server}
use nexus_panel.Database.Orm.{Orm}
use nexus_panel.Database.Pages.{Pages, Paged, total_pages, paginate}
use nexus_panel.Database.Pages.Rows.{page-Pass}
use nexus_panel.Database.Panel.{Panel, ok, err, internal}
use nexus_panel.Auth.Service.{present}
use nexus_panel.Servers.Service.{Loaded, load}
use nexus_panel.Servers.Listing.{is_visible, is_found, load_all, find_all}

abbrev pub IsOwned : Text → Loaded → Type 0
IsOwned user l = l.server.user_id ≡ user

load_all-IsOwned :
    (orm : Orm) (pages : Pages) (p : Panel) (user : Text) (t : List Server)
    → All (λ s. (s.user_id == user) ≡ true) t
    → All (IsOwned user) (load_all orm pages p t)
unfolding load
load_all-IsOwned orm pages p user [] h = tt
load_all-IsOwned orm pages p user (s ∷ t) (h, hs) =
    ((eq_iff s.user_id user).0 h, load_all-IsOwned orm pages p user t hs)

-- A page of the list, asked for by a user who is no administrator, with a positive page size: it is refused
-- for page 0, and any other shows servers of that user only, with or without a search.
pub find_all-IsOwned :
    (orm : Orm) (pages : Pages) (page per_page : ℕ) (c : ℕ) (name : Text) (sought : Option Text)
    (p : Panel)
    → 0 < per_page
    → ((page ≡ 0)
        × (find_all orm pages page per_page (some (c ∷ name)) false sought p ≡ (err internal, p)))
      ⊎ ((found : Paged Loaded) × (find_all orm pages page per_page (some (c ∷ name)) false sought p
            ≡ (ok found, p))
          × All (IsOwned (c ∷ name)) found.rows)
unfolding find_all paginate
find_all-IsOwned orm pages page per_page c name sought p h =
    let test : Server → Bool =
      λ s. is_visible (some (c ∷ name)) false s && is_found pages (present sought) s in
    let rows = pages.page test ((page - 1) * per_page) per_page p.servers in
    let total = pages.count test p.servers in
    let found : Paged Loaded = record {
      rows = load_all orm pages p rows;
      meta = record {
        total = total;
        page = page;
        per_page = per_page;
        total_pages = total_pages total per_page;
      };
    } in
    elim (Bool-cases (nat_eq page 0)) [
      | inl z ↦ inl (ground arith, rw (z, find_all) refl)
      | inr z ↦
          let owned =
            page-Pass (λ (s : Server). s.user_id == (c ∷ name)) pages test ((page - 1) * per_page)
              per_page p.servers h (λ s k. ground arith) in
          inr (found, rw (z, find_all) refl, load_all-IsOwned orm pages p (c ∷ name) rows owned)
    ]
