-- ===== src/Locations/Service.antt =====
-- packages/backend/src/locations/locations.service.ts.
use nexus_panel.Common.{
  ℕ, leb, ltb, nat_eq, Bool, true, false, not, ◌&&◌, ◌||◌, Option, none, some, List, [], ◌∷◌, all,
  is_some,
}
use mathlib.Core.Option.{get_or}
use nexus_panel.Common.Texts.{Text, ◌==◌}
use nexus_panel.Database.Entities.{Location, Node, location_clash}
use nexus_panel.Database.Orm.{Orm}
use nexus_panel.Database.Rows.{has_key}
use nexus_panel.Database.Panel.{
  Panel, bad_request, not_found, conflict, internal, M, ◌>>=◌, ◌>>◌, pure, gets, modify, throw_if,
  or_throw,
}

abbrev pub location_id : Location → Text
location_id l = l.id

abbrev pub short_code : Location → Text
short_code l = l.short

-- A node that is assigned to the location.
abbrev pub is_at : Text → Node → Bool
is_at id n = elim n.location_id [ none ↦ false | some l ↦ l == id ]

-- `/^[A-Z0-9-]+$/`.
abbrev pub is_code_unit : ℕ → Bool
is_code_unit c = leb 65 c && leb c 90 || leb 48 c && leb c 57 || nat_eq c 45

abbrev pub is_short_code : Text → Bool
is_short_code [] = false
is_short_code (c ∷ s) = is_code_unit c && all is_code_unit s

-- `conflict && conflict.id !== id`.
abbrev pub is_other : Text → Option Location → Bool
is_other id none = false
is_other id (some l) = not (l.id == id)

module _ (orm : Orm) where
  unfoldable pub find_by_id : Text → M Location
  find_by_id id = do
    found ← gets (λ p. orm.find_one (has_key location_id id) p.locations)
    or_throw (not_found "Location not found") found

  unfoldable pub create : (short long id : Text) → ℕ → M Location
  create short long id now = do
    throw_if (not (is_short_code short))
        (bad_request "Short code must be uppercase alphanumeric (hyphens allowed)")
    existing ← gets (λ p. orm.find_one (has_key short_code short) p.locations)
    throw_if (is_some existing) (conflict "Location short code already exists")
    let location : Location = record {
      id = id;
      short = short;
      long = long;
      created_at = now;
      updated_at = now;
    }
    stored ← gets (λ p. orm.insert location_clash location p.locations)
    locations ← or_throw internal stored
    modify (λ p. record p { locations = locations })
    pure location

  -- The checks of a new short code, where one is given.
  unfoldable pub check_short : Text → Option Text → M (Unit {0})
  check_short id none = pure tt
  check_short id (some short) = do
    throw_if (not (is_short_code short))
        (bad_request "Short code must be uppercase alphanumeric (hyphens allowed)")
    existing ← gets (λ p. orm.find_one (has_key short_code short) p.locations)
    throw_if (is_other id existing) (conflict "Location short code already exists")

  unfoldable pub update : (id : Text) (short long : Option Text) → M Location
  update id short long = do
    location ← find_by_id id
    check_short id short
    let changed : Location = record location {
      short = get_or short location.short;
      long = get_or long location.long;
    }
    stored ←
        gets (λ p. orm.save location_clash (has_key location_id location.id) changed p.locations)
    locations ← or_throw internal stored
    modify (λ p. record p { locations = locations })
    pure changed

  unfoldable pub delete : Text → M (Unit {0})
  delete id = do
    location ← find_by_id id
    count ← gets (λ p. orm.sum (is_at id) (λ n. 1) p.nodes)
    throw_if (ltb 0 count) (bad_request "Cannot delete location: node(s) are still assigned to it")
    modify (λ p. record p { locations = orm.remove (has_key location_id location.id) p.locations })

  -- Each location with the number of its nodes. The order by short code is not in the model.
  abbrev counted : Panel → List Location → List (Location × ℕ)
  counted p [] = []
  counted p (l ∷ ls) = (l, orm.sum (is_at l.id) (λ n. 1) p.nodes) ∷ counted p ls

  unfoldable pub find_all : M (List (Location × ℕ))
  find_all = gets (λ p. counted p (orm.find (λ l. true) p.locations))
