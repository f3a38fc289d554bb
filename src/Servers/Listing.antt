-- ===== src/Servers/Listing.antt =====
-- packages/backend/src/servers/servers.service.ts: `findAll`, the paged list of servers.
pub mod Own
use nexus_panel.Common.{
  ℕ, Bool, true, false, not, ◌&&◌, ◌||◌, Option, none, some, List, [], ◌∷◌, if◌then◌else◌,
}
use nexus_panel.Common.Texts.{Text, ◌==◌}
use nexus_panel.Database.Entities.{Server}
use nexus_panel.Database.Orm.{Orm}
use nexus_panel.Database.Pages.{Pages, Paged, containing, paginate}
use nexus_panel.Database.Panel.{Panel, M, ◌>>=◌, gets}
use nexus_panel.Auth.Service.{present}
use nexus_panel.Servers.Service.{Loaded, load}

-- `!isAdmin && userId`: the servers of the user.
abbrev pub is_visible : Option Text → Bool → Server → Bool
is_visible none is_admin s = true
is_visible (some user) is_admin s = if is_admin then true else s.user_id == user

-- `server.name ILIKE :search`, where a search is given.
abbrev pub is_found : Pages → Option Text → Server → Bool
is_found pages none s = true
is_found pages (some search) s = pages.ilike (containing search) s.name

module _ (orm : Orm) (pages : Pages) where
  abbrev pub load_all : Panel → List Server → List Loaded
  load_all p [] = []
  load_all p (s ∷ t) = load orm p s ∷ load_all p t

  unfoldable pub find_all :
      (page per_page : ℕ) → Option Text → Bool → Option Text → M (Paged Loaded)
  find_all page per_page user_id is_admin search = do
    found ←
        paginate pages (λ p. p.servers)
          (λ s. is_visible (present user_id) is_admin s && is_found pages (present search) s) page
          per_page
    gets (λ p. record { rows = load_all p found.rows; meta = found.meta })
