-- ===== src/Database/Requests.antt =====
-- Proof rules for requests: taking a successful one apart, and what every outcome keeps.
use nexus_panel.Common.{◌≡◌, refl, Bool, true, false, Option, none, some}
use nexus_panel.Database.Panel.{
  Panel, ok_inj, pure, Failure, Result, ok, err, M, after, ◌>>=◌, ◌>>◌, or_throw, throw_if,
}

-- A successful request, taken apart at its first step.
module _ {A B : Type 0} where
  after_ok :
      (r : Result A × Panel) (f : A → M B) {b : B} {q : Panel}
      → after r f ≡ (ok b, q)
      → (a : A) × (p : Panel) × (r ≡ (ok a, p)) × (f a p ≡ (ok b, q))
  after_ok (ok a, p) f h = (a, p, refl, h)
  after_ok (err e, p) f h = cc

  pub bind_ok :
      (m : M A) (f : A → M B) (p : Panel) {b : B} {q : Panel}
      → (m >>= f) p ≡ (ok b, q)
      → (a : A) × (p' : Panel) × (m p ≡ (ok a, p')) × (f a p' ≡ (ok b, q))
  bind_ok m f p h = after_ok (m p) f h

  pub then_ok :
      (m : M A) (k : M B) (p : Panel) {b : B} {q : Panel}
      → (m >> k) p ≡ (ok b, q)
      → (a : A) × (p' : Panel) × (m p ≡ (ok a, p')) × (k p' ≡ (ok b, q))
  then_ok m k p h = after_ok (m p) (λ _. k) h

pub ends_ok :
    {A B : Type 0} (m : M A) (a : B) (p : Panel) {b : B} {q : Panel}
    → (m >> pure a) p ≡ (ok b, q)
    → a ≡ b
ends_ok m a p {b} {q} h =
    let (x, p', e, k) = then_ok m (pure a) p h in (ok_inj {p = p'} {q = q} k).0

pub or_throw_ok :
    {A : Type 0} (e : Failure) (o : Option A) (p : Panel) {a : A} {q : Panel}
    → or_throw e o p ≡ (ok a, q)
    → (o ≡ some a) × (p ≡ q)
or_throw_ok e none p h = cc
or_throw_ok e (some a) p h = (cc, cc)

pub throw_if_ok :
    (b : Bool) (e : Failure) (p : Panel) {a : Unit {0}} {q : Panel}
    → throw_if b e p ≡ (ok a, q)
    → (b ≡ false) × (p ≡ q)
throw_if_ok true e p h = cc
throw_if_ok false e p h = (refl, cc)

-- What every outcome of a request keeps.
abbrev pub Keeps : {A : Type 0} → (Panel → Panel → Type 0) → M A → Type 0
Keeps R m = (p : Panel) → R p (m p).1

module _ (R : Panel → Panel → Type 0) (trans : (p q r : Panel) → R p q → R q r → R p r) where
  after-Keeps :
      {A B : Type 0} (p : Panel) (r : Result A × Panel) (f : A → M B)
      → R p r.1
      → ((a : A) → Keeps R (f a))
      → R p (after r f).1
  after-Keeps p (ok a, q) f h k = trans p q (f a q).1 h (k a q)
  after-Keeps p (err e, q) f h k = h

  pub bind-Keeps :
      {A B : Type 0} (m : M A) (f : A → M B)
      → Keeps R m
      → ((a : A) → Keeps R (f a))
      → Keeps R (m >>= f)
  bind-Keeps m f h k p = after-Keeps p (m p) f (h p) k

  pub then-Keeps : {A B : Type 0} (m : M A) (k : M B) → Keeps R m → Keeps R k → Keeps R (m >> k)
  then-Keeps m k h j p = after-Keeps p (m p) (λ _. k) (h p) (λ _. j)

module _ (R : Panel → Panel → Type 0) (same : (p : Panel) → R p p) where
  pub or_throw-Keeps : {A : Type 0} (e : Failure) (o : Option A) → Keeps R (or_throw e o)
  or_throw-Keeps e none p = same p
  or_throw-Keeps e (some a) p = same p

  pub throw_if-Keeps : (b : Bool) (e : Failure) → Keeps R (throw_if b e)
  throw_if-Keeps true e p = same p
  throw_if-Keeps false e p = same p

-- An answer that is wrapped changes nothing.
pub same_panel :
    {A B : Type 0} (r : Result A × Panel) (f : A → B) → (after r (λ a. pure (f a))).1 ≡ r.1
same_panel (ok a, q) f = refl
same_panel (err e, q) f = refl
