-- ===== src/Tests/Subusers.antt =====
-- packages/backend/src/subusers at work.
use nexus_panel.Common.{◌≡◌, refl, ◌∷◌, [], List}
use nexus_panel.Common.Texts.{Text, codes, ◌==◌}
use nexus_panel.Database.Entities.{ServerSubuser}
use nexus_panel.Database.Orm.{list_store}
use nexus_panel.Database.Panel.{Panel, err, conflict}
use nexus_panel.Subusers.Service.{invite, new_subuser}
use nexus_panel.Tests.Data.{panel}

abbrev permissions : List Text
permissions = codes "control.start" ∷ []

abbrev invited_bob : ServerSubuser
invited_bob = new_subuser (codes "s1") (codes "u2") permissions (codes "b1") 7

abbrev shared : Panel
shared = record panel { subusers = invited_bob ∷ [] }

-- The second invitation of the same user.
invite-twice :
    invite list_store (codes "s1") (codes "b@x") [] (codes "b2") 8 shared
    ≡ (err (conflict "User is already a subuser of this server"), shared)
unfolding ◌==◌ invite
invite-twice = refl
