-- ===== src/Frontend/AuthStore.antt =====
-- packages/frontend/src/stores/auth.store.ts: who is logged in, as the pages see it. What the server answers is an
-- argument of the actions.
use nexus_panel.Common.{◌≡◌, refl, Bool, true, false, Option, none, some, List, [], ◌∷◌, is_some}
use nexus_panel.Common.Texts.{Text}

pub record User : Type 0 where
  pub id : Text
  pub email : Text
  pub username : Text
  pub is_admin : Bool
  pub avatar_url : Option Text
  pub two_factor_enabled : Bool
  pub created_at : Text

pub record AuthState : Type 0 where
  pub user : Option User
  pub is_authenticated : Bool
  pub is_loading : Bool

-- The answer to a call: its data, or a promise that is rejected.
pub data Answer (A : Type 0) : Type 0 where
  answered : A → Answer A
  rejected : Answer A

-- The actions, each with the answers of the calls that it makes, in their order. `login` is told
-- whether a second factor is asked for.
pub data Action : Type 0 where
  login : (answer : Answer Bool) → (me : Answer User) → Action
  register : (answer : Answer (Unit {0})) → (me : Answer User) → Action
  logout : (answer : Answer (Unit {0})) → Action
  check_auth : (me : Answer User) → Action
  set_user : Option User → Action

abbrev pub initial : AuthState
initial = record { user = none; is_authenticated = false; is_loading = true }

-- `checkAuth`. It catches a rejection.
abbrev pub checked : Answer User → AuthState → AuthState
checked (answered u) s = record { user = some u; is_authenticated = true; is_loading = false }
checked rejected s = record { user = none; is_authenticated = false; is_loading = false }

-- The state that an action leaves, whether it throws or not.
unfoldable pub act : Action → AuthState → AuthState
act (login (answered true) me) s = s
act (login (answered false) me) s = checked me s
act (login rejected me) s = s
act (register (answered t) me) s = checked me s
act (register rejected me) s = s
act (logout answer) s = record s { user = none; is_authenticated = false }
act (check_auth me) s = checked me s
act (set_user user) s = record s { user = user; is_authenticated = is_some user }

unfoldable pub run : List Action → AuthState → AuthState
run [] s = s
run (a ∷ rest) s = run rest (act a s)

-- A user is there exactly when the pages take the visitor for logged in.
abbrev pub IsConsistent : AuthState → Type 0
IsConsistent s = s.is_authenticated ≡ is_some s.user

checked-IsConsistent : (me : Answer User) (s : AuthState) → IsConsistent (checked me s)
checked-IsConsistent (answered u) s = refl
checked-IsConsistent rejected s = refl

act-IsConsistent : (a : Action) (s : AuthState) → IsConsistent s → IsConsistent (act a s)
unfolding act
act-IsConsistent (login (answered true) me) s h = h
act-IsConsistent (login (answered false) me) s h = checked-IsConsistent me s
act-IsConsistent (login rejected me) s h = h
act-IsConsistent (register (answered t) me) s h = checked-IsConsistent me s
act-IsConsistent (register rejected me) s h = h
act-IsConsistent (logout answer) s h = refl
act-IsConsistent (check_auth me) s h = checked-IsConsistent me s
act-IsConsistent (set_user user) s h = refl

runs : (actions : List Action) (s : AuthState) → IsConsistent s → IsConsistent (run actions s)
unfolding run
runs [] s h = h
runs (a ∷ rest) s h = runs rest (act a s) (act-IsConsistent a s h)

-- After any actions, whatever the server answers them, the pages take the visitor for logged in exactly when
-- they have a user; and a logout leaves none, also when its call is rejected.
pub run-IsConsistent :
    (actions : List Action) (answer : Answer (Unit {0}))
    → IsConsistent (run actions initial)
      × ((act (logout answer) (run actions initial)).user ≡ none)
      × ((act (logout answer) (run actions initial)).is_authenticated ≡ false)
unfolding act
run-IsConsistent actions answer = (runs actions initial refl, refl, refl)
