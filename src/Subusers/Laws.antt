-- ===== src/Subusers/Laws.antt =====
-- packages/backend/src/subusers/subusers.service.ts: what an invitation ends in.
use nexus_panel.Common.{
  ℕ, ◌≡◌, refl, inl, inr, false, Option, none, some, List, [], ◌∷◌, any, arith, if◌then◌else◌,
  Option-cases, any-Has,
}
use nexus_panel.Common.Texts.{Text, eq_iff}
use nexus_panel.Database.Entities.{ServerSubuser, User, subuser_clash}
use nexus_panel.Database.Orm.{Orm}
use nexus_panel.Database.Rows.{has_key, row, Distinct, find_one-row}
use nexus_panel.Database.Panel.{Panel, Result, ok, err, not_found, conflict}
use nexus_panel.Auth.Service.{user_email}
use nexus_panel.Subusers.Service.{subuser_id, is_subuser, new_subuser, invite}

-- The unique columns of a new row clash with those of no row, by its id and by the test of the service.
any-clash :
    (s : ServerSubuser) (t : List ServerSubuser)
    → any (has_key subuser_id s.id) t ≡ false
    → any (is_subuser s.server_id s.user_id) t ≡ false
    → any (subuser_clash s) t ≡ false
any-clash s [] h k = refl
any-clash s (x ∷ xs) h k = ground (
  arith,
  any-clash s xs,
  eq_iff s.id x.id,
  eq_iff x.id s.id,
  eq_iff s.user_id x.user_id,
  eq_iff x.user_id s.user_id,
  eq_iff s.server_id x.server_id,
  eq_iff x.server_id s.server_id,
)

-- How an invitation ends, by the user of the address.
abbrev pub invited :
    (server_id : Text)
    → List Text
    → (id : Text) → ℕ
    → Panel
    → Option User
    → Result ServerSubuser × Panel
invited server_id permissions id now p none = (err (not_found "User with this email not found"), p)
invited server_id permissions id now p (some u) =
    if any (is_subuser server_id u.id) p.subusers
    then (err (conflict "User is already a subuser of this server"), p)
    else (
      ok (new_subuser server_id u.id permissions id now),
      record p { subusers = new_subuser server_id u.id permissions id now ∷ p.subusers },
    )

module _ (orm : Orm) where
  -- With distinct addresses and a new id, an invitation is refused when no user has the address or when
  -- the user with it is a subuser of the server, and nothing changes; else the subuser is stored.
  -- The unique columns of the table never refuse it.
  pub invite_lem :
      (server_id email : Text) (permissions : List Text) (id : Text) (now : ℕ) (p : Panel)
      → Distinct user_email p.users
      → any (has_key subuser_id id) p.subusers ≡ false
      → invite orm server_id email permissions id now p
        ≡ invited server_id permissions id now p (row user_email email p.users)
  unfolding invite
  invite_lem server_id email permissions id now p d new =
      rw (find_one-row user_email orm email p.users d)
        (elim (Option-cases (row user_email email p.users)) [
          | inl e ↦ rw (e, invite) refl
          | inr (u, e) ↦ elim (Option-cases (orm.find_one (is_subuser server_id u.id) p.subusers)) [
            | inl f ↦
                let free = orm.find_one_none (is_subuser server_id u.id) p.subusers f in
                rw (e, invite)
                  (rw (f, invite)
                    (rw (free) (
                      rw
                        (
                          orm.insert_lem subuser_clash
                              (new_subuser server_id u.id permissions id now) p.subusers,
                          invite,
                        )
                        (rw
                          (any-clash (new_subuser server_id u.id permissions id now) p.subusers new
                            free)
                          refl))))
            | inr (s, f) ↦
                let (hit, stored) = orm.find_one_some (is_subuser server_id u.id) p.subusers s f in
                rw (e, invite)
                  (rw (f, invite)
                    (rw (any-Has (is_subuser server_id u.id) p.subusers stored hit) refl))
          ]
        ])
