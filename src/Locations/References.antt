-- ===== src/Locations/References.antt =====
-- packages/backend/src/locations/locations.service.ts: nodes are assigned to locations that exist.
use nexus_panel.Common.{
  ℕ, ltb, ◌≡◌, refl, ◌∙◌, inl, inr, Bool, true, false, not, ◌&&◌, Option, none, some, List, [], ◌∷◌,
  if◌then◌else◌, arith, Option-cases, Bool-cases, any, patch, select, sum_by, All, All-map_of,
}
use nexus_panel.Common.Texts.{Text, eq_iff}
use nexus_panel.Database.Entities.{Location, Node, location_clash}
use nexus_panel.Database.Orm.{Orm}
use nexus_panel.Database.Rows.{has_key, any-replace, any-remove_other}
use mathlib.Core.Option.{get_or}
use nexus_panel.Database.Panel.{
  Panel, Result, ok, err, internal, after, gets, modify, pure, or_throw, ◌>>=◌, ◌>>◌,
}
use nexus_panel.Locations.Service.{
  location_id, short_code, is_at, is_short_code, find_by_id, create, check_short, update, delete,
}

-- The location of a node is stored, where it has one.
abbrev pub is_known : List Location → Node → Bool
is_known t n = elim n.location_id [ none ↦ true | some l ↦ any (has_key location_id l) t ]

-- Every node is assigned to a stored location, or to none.
abbrev pub Referenced : Panel → Type 0
Referenced p = All (λ n. is_known p.locations n ≡ true) p.nodes

count_zero :
    (id : Text) (t : List Node)
    → ltb 0 (sum_by (λ n. if is_at id n then 1 else 0) t) ≡ false
    → All (λ n. is_at id n ≡ false) t
count_zero id [] h = tt
count_zero id (x ∷ xs) h = elim (Bool-cases (is_at id x)) [
  | inl e ↦ absurd (ground arith)
  | inr e ↦ (e, count_zero id xs (ground arith))
]

known_more :
    (r : Location) (t : List Location) (n : Node) → is_known t n ≡ true → is_known (r ∷ t) n ≡ true
known_more r t n h = elim (Option-cases n.location_id) [ inl e ↦ rw e | inr (l, e) ↦ ground arith ]

known_patch :
    (r : Location) (t : List Location) (n : Node)
    → is_known t n ≡ true
    → is_known (patch (has_key location_id r.id) (λ _. r) t) n ≡ true
known_patch r t n h = elim (Option-cases n.location_id) [
  | inl e ↦ rw e
  | inr (l, e) ↦ rw e (any-replace location_id r l t ∙ rw e at h)
]

known_select :
    (id : Text) (t : List Location) (n : Node)
    → is_at id n ≡ false
    → is_known t n ≡ true
    → is_known (select (λ l. not (has_key location_id id l)) t) n ≡ true
known_select id t n a h = elim (Option-cases n.location_id) [
  | inl e ↦ rw e
  | inr (l, e) ↦
      rw e
        (any-remove_other location_id id l t (ground (arith, eq_iff id l, eq_iff l id)) (rw e at h))
]

unused :
    (id : Text) (t : List Location) (ns : List Node)
    → All (λ n. is_at id n ≡ false) ns
    → All (λ n. is_known t n ≡ true) ns
    → All (λ n. is_known (select (λ l. not (has_key location_id id l)) t) n ≡ true) ns
unused id t [] a h = tt
unused id t (n ∷ ns) (a, b) (h, k) = (known_select id t n a h, unused id t ns b k)

-- The requests that change locations.
pub data Change : Type 0 where
  creation : (short long id : Text) → ℕ → Change
  renaming : (id : Text) (short long : Option Text) → Change
  removal : (id : Text) → Change

module _ (orm : Orm) where
  abbrev pub apply : Change → Panel → Panel
  apply (creation short long id now) p = (create orm short long id now p).1
  apply (renaming id short long) p = (update orm id short long p).1
  apply (removal id) p = (delete orm id p).1

  check_short-panel :
      (id : Text) (short : Option Text) (p : Panel) → (check_short orm id short p).1 ≡ p
  unfolding check_short
  check_short-panel id none p = refl
  check_short-panel id (some s) p = ground arith

  create-Referenced :
      (short long id : Text) (now : ℕ) (p : Panel)
      → Referenced p
      → Referenced (create orm short long id now p).1
  unfolding create
  create-Referenced short long id now p h =
      let r : Location = record {
        id = id;
        short = short;
        long = long;
        created_at = now;
        updated_at = now;
      } in
      elim (Bool-cases (is_short_code short)) [
        | inr e ↦ rw (e, create) h
        | inl e ↦ elim (Option-cases (orm.find_one (has_key short_code short) p.locations)) [
          | inr (l, f) ↦ rw (e, create) (rw (f, create) h)
          | inl f ↦ elim (Bool-cases (any (location_clash r) p.locations)) [
            | inl c ↦
                rw (e, create)
                  (rw (f, create)
                    (rw (orm.insert_lem location_clash r p.locations, create) (rw c h)))
            | inr c ↦
                rw (e, create)
                  (rw (f, create)
                    (rw (orm.insert_lem location_clash r p.locations, create)
                      (rw c (
                        All-map_of (λ n. is_known p.locations n ≡ true)
                          (λ n. is_known (r ∷ p.locations) n ≡ true) p.nodes
                          (λ n k. known_more r p.locations n k) h))))
          ]
        ]
      ]

  -- The end of `update`: the row that was changed is stored, or the save is refused.
  save-Referenced :
      (r : Location) (e : Result (Unit {0}) × Panel) (p : Panel)
      → e.1 ≡ p
      → Referenced p
      → Referenced
          (after e (λ _. do
            stored ← gets (λ x. orm.save location_clash (has_key location_id r.id) r x.locations)
            locations ← or_throw internal stored
            modify (λ x. record x { locations = locations })
            pure r)).1
  save-Referenced r (err f, q) p e h = rw e h
  save-Referenced r (ok t, q) p e h =
      let at : Referenced q = rw e h in
      rw (orm.save_lem location_clash (has_key location_id r.id) r q.locations)
        (elim (Bool-cases
          (any (λ x. not (has_key location_id r.id x) && location_clash r x) q.locations)) [
            | inl c ↦ rw c at
            | inr c ↦ rw c (
                All-map_of (λ n. is_known q.locations n ≡ true)
                  (λ n. is_known (patch (has_key location_id r.id) (λ _. r) q.locations) n ≡ true)
                  q.nodes (λ n k. known_patch r q.locations n k) at)
          ])

  update-Referenced :
      (id : Text) (short long : Option Text) (p : Panel)
      → Referenced p
      → Referenced (update orm id short long p).1
  unfolding update find_by_id
  update-Referenced id short long p h =
      elim (Option-cases (orm.find_one (has_key location_id id) p.locations)) [
        | inl e ↦ rw (e, update) h
        | inr (l, e) ↦
            rw (e, update)
              (save-Referenced
                (record l { short = get_or short l.short; long = get_or long l.long })
                (check_short orm id short p) p (check_short-panel id short p) h)
      ]

  delete-Referenced : (id : Text) (p : Panel) → Referenced p → Referenced (delete orm id p).1
  unfolding delete find_by_id
  delete-Referenced id p h =
      elim (Option-cases (orm.find_one (has_key location_id id) p.locations)) [
        | inl e ↦ rw (e, delete) h
        | inr (l, e) ↦
            let same : l.id ≡ id =
              (eq_iff l.id id).0 (orm.find_one_some (has_key location_id id) p.locations l e).0 in
            elim (Bool-cases (ltb 0 (sum_by (λ n. if is_at id n then 1 else 0) p.nodes))) [
              | inl c ↦
                  rw (e, delete)
                    (rw (orm.sum_lem (is_at id) (λ n. 1) p.nodes, delete) (rw (c, delete) h))
              | inr c ↦
                  rw (e, delete)
                    (rw (orm.sum_lem (is_at id) (λ n. 1) p.nodes, delete)
                      (rw (c, delete)
                        (rw same (
                          rw (orm.remove_lem (has_key location_id id) p.locations)
                            (unused id p.locations p.nodes (count_zero id p.nodes c) h)))))
            ]
      ]

  -- If every node is at a stored location or at none, it is so after any request on locations,
  -- refused or not.
  pub apply-Referenced : (c : Change) (p : Panel) → Referenced p → Referenced (apply c p)
  apply-Referenced (creation short long id now) p h = create-Referenced short long id now p h
  apply-Referenced (renaming id short long) p h = update-Referenced id short long p h
  apply-Referenced (removal id) p h = delete-Referenced id p h
