-- ===== src/Refs/Resolved.antt =====
-- After a successful replacement no reference is left.
use kusion.Base.{
  String, Bool, true, not, ◌&&◌, Option, none, some, List, [], ◌==◌, ◌≡◌, refl, is_nil,
}
use kusion.Base.Text.{strip_prefix}
use kusion.Control.{
  Outcome, ok, ◌>>=◌, check_argument, OnOk, OnOk-bind, OnOk-ok, OnOk-intro, OnOk-map,
}
use kusion.Value.{Value, null, bool, num, str, list, object, Items, nil, cons, Fields, end, field}
use kusion.Refs.{
  ImplicitFun, SecretFun, implicit_ref_prefix, is_secured, implicit_case, secret_case,
  replace_implicit, replace_secret, replace_ref, replace_items, replace_fields,
}

-- Every text in a value passes a test.
unfoldable mutual
  pub all_strings : (String → Bool) → Value → Bool
  all_strings p null = true
  all_strings p (bool b) = true
  all_strings p (num n) = true
  all_strings p (str s) = p s
  all_strings p (list vs) = all_items p vs
  all_strings p (object fs) = all_fields p fs

  pub all_items : (String → Bool) → Items → Bool
  all_items p nil = true
  all_items p (cons v vs) = all_strings p v && all_items p vs

  pub all_fields : (String → Bool) → Fields → Bool
  all_fields p end = true
  all_fields p (field k v fs) = all_strings p v && all_fields p fs

abbrev Clean {ℓ} : {A : Type ℓ} → (A → Bool) → List String × A → Type 0
Clean t found = t found.1 ≡ true

module _ (f : ImplicitFun) (g : SecretFun) (p : String → Bool)
    (at_string : (s : String)
      → OnOk (Clean (all_strings p)) (replace_implicit f s >>= replace_secret g s)) where
  mutual
    unfolding replace_ref all_strings

    replace_ref-all : (v : Value) → OnOk (Clean (all_strings p)) (replace_ref f g v)
    replace_ref-all null = refl
    replace_ref-all (bool b) = refl
    replace_ref-all (num n) = refl
    replace_ref-all (str s) = at_string s
    replace_ref-all (list vs) =
        OnOk-bind (Clean (all_items p)) (Clean (all_strings p)) (replace_items f g vs) _
          (replace_items-all vs) (λ x h. h)
    replace_ref-all (object fs) =
        OnOk-bind (Clean (all_fields p)) (Clean (all_strings p)) (replace_fields f g fs) _
          (replace_fields-all fs) (λ x h. h)

    replace_items-all : (vs : Items) → OnOk (Clean (all_items p)) (replace_items f g vs)
    replace_items-all nil = refl
    replace_items-all (cons v vs) =
        OnOk-bind (Clean (all_strings p)) (Clean (all_items p)) (replace_ref f g v) _
          (replace_ref-all v)
          λ x h.
            OnOk-bind (Clean (all_items p)) (Clean (all_items p)) (replace_items f g vs) _
              (replace_items-all vs) (λ y k. rw (h, k))

    replace_fields-all : (fs : Fields) → OnOk (Clean (all_fields p)) (replace_fields f g fs)
    replace_fields-all end = refl
    replace_fields-all (field k v fs) =
        OnOk-bind (Clean (all_strings p)) (Clean (all_fields p)) (replace_ref f g v) _
          (replace_ref-all v)
          λ x h.
            OnOk-bind (Clean (all_fields p)) (Clean (all_fields p)) (replace_fields f g fs) _
              (replace_fields-all fs) (λ y k. rw (h, k))

-- No text of the value is an implicit reference.
abbrev pub has_no_ref : Value → Bool
has_no_ref = all_strings (λ s. is_nil (strip_prefix implicit_ref_prefix s))

-- No text of the value is a secret reference.
abbrev pub has_no_secret : Value → Bool
has_no_secret = all_strings (λ s. is_nil (is_secured s))

implicit_case-on :
    (Q : Value → Type 0) (f : String → Outcome Value) (s : String) (o : Option String)
    → ((ref : String) → OnOk Q (f ref))
    → (o ≡ none → Q (str s))
    → OnOk (λ x. Q x.1) (implicit_case f s o)
unfolding implicit_case
implicit_case-on Q f s none h k = k refl
implicit_case-on Q f s (some ref) h k =
    OnOk-bind (λ _. Unit {0}) (λ x. Q x.1) (check_argument (not (ref == "")) _) _
      (OnOk-intro (λ _. Unit {0}) (check_argument (not (ref == "")) _) (λ a e. tt))
      λ a u. OnOk-bind Q (λ x. Q x.1) (f ref) _ (h ref) (λ v c. c)

no_ref-string :
    (f : String → Outcome Value) (s : String)
    → ((ref : String) → OnOk (λ v. has_no_ref v ≡ true) (f ref))
    → OnOk (Clean has_no_ref) (replace_implicit (some f) s >>= replace_secret none s)
unfolding replace_implicit replace_secret all_strings
no_ref-string f s h =
    let o = strip_prefix implicit_ref_prefix s in
    OnOk-bind (Clean has_no_ref) (Clean has_no_ref) (implicit_case f s o) (λ x. ok x)
      (implicit_case-on (λ v. has_no_ref v ≡ true) f s o h (λ e. rw e)) (λ x k. k)

-- If what stands behind the references holds no reference itself, a successful `ReplaceImplicitRef`
-- leaves none.
pub replace_ref-has_no_ref :
    (f : String → Outcome Value) (v w : Value) (refs : List String)
    → ((ref : String) → OnOk (λ u. has_no_ref u ≡ true) (f ref))
    → replace_ref (some f) none v ≡ ok (refs, w)
    → has_no_ref w ≡ true
replace_ref-has_no_ref f v w refs h e =
    OnOk-ok (Clean has_no_ref) (replace_ref (some f) none v) (refs, w)
      (replace_ref-all (some f) none (λ s. is_nil (strip_prefix implicit_ref_prefix s))
        (λ s. no_ref-string f s h) v)
      e

secret_case-Clean :
    (g : String → String → Outcome String) (s : String) (found : List String × Value)
    (o : Option String)
    → ((prefix t : String) → OnOk (λ u. is_nil (is_secured u) ≡ true) (g prefix t))
    → (o ≡ none → has_no_secret found.1 ≡ true)
    → OnOk (Clean has_no_secret) (secret_case g s found o)
unfolding secret_case all_strings
secret_case-Clean g s found none h k = k refl
secret_case-Clean g s (refs, v) (some prefix) h k =
    OnOk-bind (λ u. is_nil (is_secured u) ≡ true) (Clean has_no_secret) (g prefix s) _ (h prefix s)
      (λ t c. c)

no_secret-string :
    (f : String → Outcome Value) (g : String → String → Outcome String) (s : String)
    → ((ref : String) → OnOk (λ v. has_no_secret v ≡ true) (f ref))
    → ((prefix t : String) → OnOk (λ u. is_nil (is_secured u) ≡ true) (g prefix t))
    → OnOk (Clean has_no_secret) (replace_implicit (some f) s >>= replace_secret (some g) s)
unfolding replace_implicit replace_secret all_strings
no_secret-string f g s hf hg =
    OnOk-bind (λ x. is_secured s ≡ none → has_no_secret x.1 ≡ true) (Clean has_no_secret)
      (implicit_case f s (strip_prefix implicit_ref_prefix s)) _
      (implicit_case-on (λ v. is_secured s ≡ none → has_no_secret v ≡ true) f s
        (strip_prefix implicit_ref_prefix s) (λ ref. OnOk-map (f ref) (hf ref) (λ v c _. c))
        (λ _ e. rw e))
      (λ x k. secret_case-Clean g s x (is_secured s) hg k)

-- If neither the values behind the references nor the secrets look like secret references, a
-- successful `ReplaceRef` leaves no secret reference.
pub replace_ref-has_no_secret :
    (f : String → Outcome Value) (g : String → String → Outcome String) (v w : Value)
    (refs : List String)
    → ((ref : String) → OnOk (λ u. has_no_secret u ≡ true) (f ref))
    → ((prefix t : String) → OnOk (λ u. is_nil (is_secured u) ≡ true) (g prefix t))
    → replace_ref (some f) (some g) v ≡ ok (refs, w)
    → has_no_secret w ≡ true
replace_ref-has_no_secret f g v w refs hf hg e =
    OnOk-ok (Clean has_no_secret) (replace_ref (some f) (some g) v) (refs, w)
      (replace_ref-all (some f) (some g) (λ s. is_nil (is_secured s))
        (λ s. no_secret-string f g s hf hg) v)
      e

-- With nothing to replace, the value is returned as it is, and no reference is reported.
mutual
  unfolding replace_ref replace_implicit replace_secret

  replace_ref-none : (v : Value) → replace_ref none none v ≡ ok ([], v)
  replace_ref-none null = refl
  replace_ref-none (bool b) = refl
  replace_ref-none (num n) = refl
  replace_ref-none (str s) = refl
  replace_ref-none (list vs) = rw (replace_items-none vs)
  replace_ref-none (object fs) = rw (replace_fields-none fs)

  replace_items-none : (vs : Items) → replace_items none none vs ≡ ok ([], vs)
  replace_items-none nil = refl
  replace_items-none (cons v vs) = rw (replace_ref-none v, replace_items-none vs)

  replace_fields-none : (fs : Fields) → replace_fields none none fs ≡ ok ([], fs)
  replace_fields-none end = refl
  replace_fields-none (field k v fs) = rw (replace_ref-none v, replace_fields-none fs)
