-- ===== src/Control.antt =====
-- The ways in which a Go function of the engine ends, and code that changes a state on the way.
use mathlib.Core.Path.{subst}
use kusion.Base.{
  arith, String, Bool, true, false, Option, none, some, ◌≡◌, refl, if◌then◌else◌, ◌⊎◌, inl, inr,
}
use kusion.Base.Text.{◌<>◌}
use kusion.Status.{Status, is_err}

-- A value, a status or error returned in its place, or a panic with its message.
pub data Outcome {ℓ} (A : Type ℓ) : Type ℓ where
  ok : A → Outcome A
  failed : Status → Outcome A
  panicked : String → Outcome A

abbrev pub nil_dereference : String
nil_dereference = "invalid memory address or nil pointer dereference"

infixl 5 ◌>>=◌ ◌>>◌
abbrev pub ◌>>=◌ {ℓ κ} : {A : Type ℓ} {B : Type κ} → Outcome A → (A → Outcome B) → Outcome B
ok a >>= f = f a
failed s >>= f = failed s
panicked p >>= f = panicked p

abbrev pub ◌>>◌ {ℓ} : {B : Type ℓ} → Outcome (Unit {0}) → Outcome B → Outcome B
m >> k = m >>= λ _. k

-- util.CheckArgument
unfoldable pub check_argument : Bool → String → Outcome (Unit {0})
check_argument true msg = ok tt
check_argument false msg = panicked msg

-- util.CheckNotNil
unfoldable pub check_not_nil {ℓ} : {A : Type ℓ} → Option A → String → Outcome A
check_not_nil none msg = panicked ("checkArgument failed: " <> msg)
check_not_nil (some a) msg = ok a

-- util.CheckNotError, over the error's text
unfoldable pub check_not_error : Option String → String → Outcome (Unit {0})
check_not_error none msg = ok tt
check_not_error (some e) msg = panicked ("error:" <> e <> ", msg: " <> msg)

-- What was changed before an error or a panic stays changed.
abbrev pub Exec {ℓ} : Type ℓ → Type ℓ → Type ℓ
Exec S A = S → Outcome A × S

module _ {ℓ} {S A : Type ℓ} where
  abbrev pub pure : A → Exec S A
  pure a s = (ok a, s)

  abbrev pub lift : Outcome A → Exec S A
  lift r s = (r, s)

  abbrev pub gets : (S → A) → Exec S A
  gets f s = (ok (f s), s)

module _ {ℓ} {S A B : Type ℓ} where
  abbrev pub continue : Outcome A × S → (A → Exec S B) → Outcome B × S
  continue (ok a, s) f = f a s
  continue (failed e, s) f = (failed e, s)
  continue (panicked p, s) f = (panicked p, s)

  infixl 5 ◌>=>◌
  abbrev pub ◌>=>◌ : Exec S A → (A → Exec S B) → Exec S B
  ◌>=>◌ m f s = continue (m s) f

-- `m` keeps `P`, whether it returns, fails or panics.
pub record Keeps {ℓ} {W V : Type ℓ} (Inv : W → Type ℓ) (run : Exec W V) : Type ℓ where
  pub at : (w : W) → Inv w → Inv (run w).1

module _ {ℓ} {S A B : Type ℓ} {P : S → Type ℓ} where
  pub continue-keeps :
      (r : Outcome A × S) (f : A → Exec S B)
      → P r.1
      → ((a : A) → Keeps P (f a))
      → P (continue r f).1
  continue-keeps (ok a, s) f h k = (k a).at s h
  continue-keeps (failed e, s) f h k = h
  continue-keeps (panicked p, s) f h k = h

  pub Keeps-bind :
      (first : Exec S A) (next : A → Exec S B)
      → Keeps P first
      → ((a : A) → Keeps P (next a))
      → Keeps P (first >=> next)
  Keeps-bind first next kept rest = record {
    at = λ s h. continue-keeps (first s) next (kept.at s h) rest;
  }

module _ {ℓ} {S A : Type ℓ} {P : S → Type ℓ} where
  pub Keeps-lift : (r : Outcome A) → Keeps P (lift {S = S} r)
  Keeps-lift r = record { at = λ s h. h }

-- What holds of the value that a run returns, if it returns one.
abbrev pub OnOk {ℓ κ} : {A : Type ℓ} → (A → Type κ) → Outcome A → Type κ
OnOk P (ok a) = P a
OnOk P (failed s) = Unit
OnOk P (panicked p) = Unit

pub OnOk-bind {ℓ κ μ ν} :
    {A : Type ℓ} {B : Type κ} (Q : A → Type μ) (P : B → Type ν) (m : Outcome A) (f : A → Outcome B)
    → OnOk Q m
    → ((a : A) → Q a → OnOk P (f a))
    → OnOk P (m >>= f)
OnOk-bind Q P (ok a) f h k = k a h
OnOk-bind Q P (failed s) f h k = tt
OnOk-bind Q P (panicked p) f h k = tt

pub OnOk-ok {ℓ κ} :
    {A : Type ℓ} (P : A → Type κ) (m : Outcome A) (a : A) → OnOk P m → m ≡ ok a → P a
OnOk-ok P m a h e = subst (OnOk P) e h

pub OnOk-intro {ℓ κ} :
    {A : Type ℓ} (P : A → Type κ) (m : Outcome A) → ((a : A) → m ≡ ok a → P a) → OnOk P m
OnOk-intro P (ok a) h = h a refl
OnOk-intro P (failed s) h = tt
OnOk-intro P (panicked p) h = tt

pub OnOk-if {ℓ κ} :
    {A : Type ℓ} (P : A → Type κ) (b : Bool) (m n : Outcome A)
    → (b ≡ true → OnOk P m)
    → (b ≡ false → OnOk P n)
    → OnOk P (if b then m else n)
OnOk-if P true m n hm hn = hm refl
OnOk-if P false m n hm hn = hn refl

pub OnOk-any {ℓ} : {A : Type ℓ} (m : Outcome A) → OnOk (λ a. Unit {0}) m
OnOk-any m = OnOk-intro (λ a. Unit {0}) m (λ a e. tt)

pub OnOk-map {ℓ κ μ} :
    {A : Type ℓ} {P : A → Type κ} {Q : A → Type μ} (m : Outcome A)
    → OnOk P m
    → ((a : A) → P a → Q a)
    → OnOk Q m
OnOk-map (ok a) h k = k a h
OnOk-map (failed s) h k = tt
OnOk-map (panicked p) h k = tt

-- A Go function with an error result, by the error's text.
pub data Result {ℓ} (A : Type ℓ) : Type ℓ where
  value : A → Result A
  error : String → Result A

infixl 5 ◌>>?◌
abbrev pub ◌>>?◌ {ℓ κ} : {A : Type ℓ} {B : Type κ} → Result A → (A → Result B) → Result B
value a >>? f = f a
error e >>? f = error e

pub Result-cases {ℓ} :
    {A : Type ℓ} (r : Result A) → ((a : A) × (r ≡ value a)) ⊎ ((e : String) × (r ≡ error e))
Result-cases (value a) = inl (a, refl)
Result-cases (error e) = inr (e, refl)

-- `if status.IsErr(s) { return s }`, and on with the rest
unfoldable pub unless_err {ℓ} : {A : Type ℓ} → Option Status → Outcome A → Outcome A
unfolding is_err
unless_err none rest = rest
unless_err (some s) rest = elim (is_err (some s)) [ true ↦ failed s | false ↦ rest ]

-- A chain that returns has returned from each part.
pub bind-eq-ok {κ ℓ} :
    {B : Type κ} {A : Type ℓ} {b : B} (first : Outcome A) (rest : A → Outcome B)
    → (first >>= rest) ≡ ok b
    → (got : A) × (first ≡ ok got) × (rest got ≡ ok b)
bind-eq-ok (panicked p) rest e = cc
bind-eq-ok (failed s) rest e = cc
bind-eq-ok (ok got) rest e = (got, refl, e)

pub continue-eq-ok {ℓ} :
    {S A B : Type ℓ} (r : Outcome A × S) (f : A → Exec S B) {b : B} {t : S}
    → continue r f ≡ (ok b, t)
    → (a : A) × (r.0 ≡ ok a) × (f a r.1 ≡ (ok b, t))
continue-eq-ok (ok a, s) f h = (a, refl, h)
continue-eq-ok (failed e, s) f h = cc
continue-eq-ok (panicked p, s) f h = cc

pub unless_err-eq-ok {ℓ} :
    {A : Type ℓ} (s : Option Status) (r : Outcome A) (a : A) → unless_err s r ≡ ok a → r ≡ ok a
unfolding unless_err
unless_err-eq-ok none r a h = h
unless_err-eq-ok (some s) r a h = ground arith
