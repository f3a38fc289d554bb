-- ===== src/Users/Writes.antt =====
-- packages/backend/src/users/users.service.ts and packages/backend/src/admin/admin-users.controller.ts: how a write of
-- a user ends.
use nexus_panel.Common.{
  ◌≡◌, refl, ◌∙◌, sym, inl, inr, Bool, true, false, not, ◌&&◌, Option, none, some, List, [], ◌∷◌,
  if◌then◌else◌, arith, Option-cases, Bool-cases, Has, any, patch, is_some, any-Has,
}
use mathlib.Core.Option.{get_or}
use nexus_panel.Common.Texts.{Text, ◌==◌, eq_iff, eq_comm, ==_refl}
use nexus_panel.Database.Entities.{User, user_clash}
use nexus_panel.Database.Orm.{Orm, first-some}
use nexus_panel.Database.Rows.{has_key, row, Distinct, find_one-row}
use nexus_panel.Database.Panel.{Panel, Failure, ok, err}
use nexus_panel.Auth.Crypto.{Crypto}
use nexus_panel.Auth.Service.{user_id, user_email, present, is_taken}
use nexus_panel.Auth.Login.{new_user_unique}
use nexus_panel.Users.Service.{
  CreateUserDto, UpdateUserDto, Draw, Refusals, user_name, result, new_user, assign, new_password,
  check_free, create, update,
}

found-any :
    {E : Type 0} (orm : Orm) (q : E → Bool) (t : List E) → is_some (orm.find_one q t) ≡ any q t
found-any orm q t = elim (Option-cases (orm.find_one q t)) [
  | inl e ↦ rw e (sym (orm.find_one_none q t e))
  | inr (x, e) ↦
      let (hit, stored) = orm.find_one_some q t x e in rw e (sym (any-Has q t stored hit))
]

module _ {E : Type 0} (id key : E → Text) where
  -- A row that does not have the id of `u`, and has the text under the key.
  abbrev pub is_other : E → Text → E → Bool
  is_other u v r = not (has_key id (id u) r) && has_key key v r

  other_free :
      (u : E) (v : Text) (t : List E) → any (has_key key v) t ≡ false → any (is_other u v) t ≡ false
  other_free u v [] h = refl
  other_free u v (x ∷ xs) h = ground (arith, other_free u v xs)

  other_own : (u : E) (t : List E) → Distinct key t → Has u t → any (is_other u (key u)) t ≡ false
  other_own u [] d h = absurd h
  other_own u (x ∷ xs) d (inl e) =
      let same : has_key id (id u) x ≡ true = rw e (==_refl (id x)) in
      let free : any (has_key key (key u)) xs ≡ false = rw e d.0 in
      ground (arith, other_free u (key u) xs free)
  other_own u (x ∷ xs) d (inr h) =
      ground
        (arith, other_own u xs d.1 h, any-Has (has_key key (key x)) xs h, eq_comm (key x) (key u))

-- The new value of a unique column stands in another row.
abbrev pub others_have : (User → Text) → Option Text → User → List User → Bool
others_have key none u t = false
others_have key (some v) u t = not (v == key u) && any (has_key key v) t

clash_none :
    (c u : User) (t : List User)
    → c.id ≡ u.id
    → any (is_other user_id user_email u c.email) t ≡ false
    → any (is_other user_id user_name u c.username) t ≡ false
    → any (λ r. not (has_key user_id u.id r) && user_clash c r) t ≡ false
clash_none c u [] e h k = refl
clash_none c u (x ∷ xs) e h k = ground (
  arith,
  clash_none c u xs e,
  eq_comm c.id x.id,
  eq_comm u.id x.id,
  eq_comm c.email x.email,
  eq_comm c.username x.username,
)

-- The value of a unique column after an update is that of no other row, if the check of it passed.
kept_free :
    (key : User → Text) (v : Option Text) (u : User) (t : List User)
    → Distinct key t
    → Has u t
    → others_have key v u t ≡ false
    → any (is_other user_id key u (get_or v (key u))) t ≡ false
kept_free key none u t d h f = other_own user_id key u t d h
kept_free key (some v) u t d h f = elim (Bool-cases (v == key u)) [
  | inl e ↦ rw ((eq_iff v (key u)).0 e) (other_own user_id key u t d h)
  | inr e ↦ other_free user_id key u v t (ground arith)
]

module _ (orm : Orm) where
  pub check_free_lem :
      (key : User → Text) (taken : Failure) (v : Option Text) (u : User) (p : Panel)
      → check_free orm key taken v u p
        ≡ (if others_have key v u p.users then (err taken, p) else (ok tt, p))
  unfolding check_free
  check_free_lem key taken none u p = refl
  check_free_lem key taken (some v) u p =
      rw (found-any orm (has_key key v) p.users)
        (elim (Bool-cases (not (v == key u) && any (has_key key v) p.users)) [
          | inl e ↦ rw e
          | inr e ↦ rw e
        ])

  module _ (crypto : Crypto) where
    -- With a new id, a user is refused when the address or the name is
    -- taken, with the exception of the caller and no change; else the row is stored.
    pub create_lem :
        (refusals : Refusals) (dto : CreateUserDto) (draw : Draw) (p : Panel)
        → any (has_key user_id draw.id) p.users ≡ false
        → let u = new_user dto (crypto.hash draw.salt 12 dto.password) draw in
          create orm crypto refusals dto draw p ≡ (
            if any (is_taken dto.email dto.username) p.users
            then (err refusals.taken, p)
            else (ok (result u), record p { users = u ∷ p.users }))
    unfolding create
    create_lem refusals dto draw p new =
        let u = new_user dto (crypto.hash draw.salt 12 dto.password) draw in
        rw (found-any orm (is_taken dto.email dto.username) p.users)
          (elim (Bool-cases (any (is_taken dto.email dto.username) p.users)) [
            | inl e ↦ rw e
            | inr e ↦ rw e (
                rw (orm.insert_lem user_clash u p.users, create)
                  (rw (new_user_unique u p.users new e)))
          ])

    -- When a user that is stored is updated, the ids, addresses and names of the table distinct and no
    -- empty address or name given, the update is refused exactly when another row has the new address
    -- or else the new name, with the exception for it and no change; else the row is replaced by the
    -- changed one, and no other row changes. The unique columns never refuse it.
    pub update_lem :
        (refusals : Refusals) (id : Text) (dto : UpdateUserDto) (salt : Text) (p : Panel) (u : User)
        → Distinct user_id p.users
        → Distinct user_email p.users
        → Distinct user_name p.users
        → row user_id id p.users ≡ some u
        → present dto.email ≡ dto.email
        → present dto.username ≡ dto.username
        → let c = assign u dto (new_password orm crypto dto.password salt u) in
          update orm crypto refusals id dto salt p ≡ (
            if others_have user_email dto.email u p.users
            then (err refusals.email_taken, p)
            else if others_have user_name dto.username u p.users
            then (err refusals.username_taken, p)
            else (
              ok (result c),
              record p { users = patch (has_key user_id u.id) (λ _. c) p.users },
            ))
    unfolding update
    update_lem refusals id dto salt p u di de dn r pe pn =
        let c = assign u dto (new_password orm crypto dto.password salt u) in
        let (hit, stored) = first-some (has_key user_id id) p.users u r in
        rw (find_one-row user_id orm id p.users di ∙ r, update)
          (rw (pe, pn)
            (rw (check_free_lem user_email refusals.email_taken dto.email u p, update)
              (elim (Bool-cases (others_have user_email dto.email u p.users)) [
                | inl e ↦ rw e
                | inr e ↦ rw e (
                    rw (check_free_lem user_name refusals.username_taken dto.username u p, update)
                      (elim (Bool-cases (others_have user_name dto.username u p.users)) [
                        | inl n ↦ rw n
                        | inr n ↦ rw n (
                            rw (orm.save_lem user_clash (has_key user_id u.id) c p.users, update)
                              (rw (
                                clash_none c u p.users refl
                                  (kept_free user_email dto.email u p.users de stored e)
                                  (kept_free user_name dto.username u p.users dn stored n))))
                      ]))
              ])))
