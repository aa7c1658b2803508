-- ===== src/Refs/Collect.antt =====
-- Which keys `ReplaceRef` reports: those that the implicit references name, in reading order.
use kusion.Base.{
  String, Bool, true, not, Option, none, some, List, [], ◌∷◌, ◌++◌, ◌==◌, ◌≡◌, refl, ◌∙◌, and_true,
}
use kusion.Base.Text.{strip_prefix, split, first_part}
use kusion.Control.{Outcome, ok, check_argument, OnOk, OnOk-bind, OnOk-ok, OnOk-intro, OnOk-map}
use kusion.Value.{Value, null, bool, num, str, list, object, Items, nil, cons, Fields, end, field}
use kusion.Refs.{
  ImplicitFun, SecretFun, implicit_ref_prefix, is_secured, implicit_case, secret_case,
  replace_implicit, replace_secret, replace_ref, replace_items, replace_fields,
}
use kusion.Refs.Resolved.{all_strings, all_items, all_fields}

abbrev named : Option String → List String
named none = []
named (some ref) = first_part (split b'.' ref) ∷ []

-- The resource keys in the implicit references of a value.
unfoldable mutual
  pub ref_keys : Value → List String
  ref_keys null = []
  ref_keys (bool b) = []
  ref_keys (num n) = []
  ref_keys (str s) = named (strip_prefix implicit_ref_prefix s)
  ref_keys (list vs) = item_keys vs
  ref_keys (object fs) = field_keys fs

  pub item_keys : Items → List String
  item_keys nil = []
  item_keys (cons v vs) = ref_keys v ++ item_keys vs

  pub field_keys : Fields → List String
  field_keys end = []
  field_keys (field k v fs) = ref_keys v ++ field_keys fs

module _ (f : String → Outcome Value) (g : SecretFun) where
  abbrev Reports {ℓ} : {A : Type ℓ} → List String → List String × A → Type 0
  Reports ks found = found.0 ≡ ks

  implicit_case-Reports :
      (s : String) (o : Option String) → OnOk (Reports (named o)) (implicit_case f s o)
  unfolding implicit_case
  implicit_case-Reports s none = refl
  implicit_case-Reports s (some ref) =
      OnOk-bind (λ _. Unit {0}) (Reports (named (some ref))) (check_argument (not (ref == "")) _) _
        (OnOk-intro (λ _. Unit {0}) (check_argument (not (ref == "")) _) (λ a e. tt))
        λ a u.
          OnOk-bind (λ _. Unit {0}) (Reports (named (some ref))) (f ref) _
            (OnOk-intro (λ _. Unit {0}) (f ref) (λ a e. tt)) (λ v c. refl)

  secret_case-Reports :
      (h : String → String → Outcome String) (s : String) (found : List String × Value)
      (o : Option String)
      → OnOk (Reports found.0) (secret_case h s found o)
  unfolding secret_case
  secret_case-Reports h s found none = refl
  secret_case-Reports h s (refs, v) (some prefix) =
      OnOk-bind (λ _. Unit {0}) (Reports refs) (h prefix s) _
        (OnOk-intro (λ _. Unit {0}) (h prefix s) (λ a e. tt)) (λ t c. refl)

  replace_secret-Reports :
      (h : SecretFun) (s : String) (found : List String × Value)
      → OnOk (Reports found.0) (replace_secret h s found)
  unfolding replace_secret
  replace_secret-Reports none s found = refl
  replace_secret-Reports (some h) s found = secret_case-Reports h s found (is_secured s)

  mutual
    unfolding replace_ref replace_implicit ref_keys

    replace_ref-Reports : (v : Value) → OnOk (Reports (ref_keys v)) (replace_ref (some f) g v)
    replace_ref-Reports null = refl
    replace_ref-Reports (bool b) = refl
    replace_ref-Reports (num n) = refl
    replace_ref-Reports (str s) =
        let ks = named (strip_prefix implicit_ref_prefix s) in
        OnOk-bind (Reports ks) (Reports ks) (implicit_case f s (strip_prefix implicit_ref_prefix s))
          _ (implicit_case-Reports s (strip_prefix implicit_ref_prefix s))
          λ x e. OnOk-map (replace_secret g s x) (replace_secret-Reports g s x) (λ y d. d ∙ e)
    replace_ref-Reports (list vs) =
        OnOk-bind (Reports (item_keys vs)) (Reports (item_keys vs)) (replace_items (some f) g vs) _
          (replace_items-Reports vs) (λ x h. h)
    replace_ref-Reports (object fs) =
        OnOk-bind (Reports (field_keys fs)) (Reports (field_keys fs)) (replace_fields (some f) g fs)
          _ (replace_fields-Reports fs) (λ x h. h)

    replace_items-Reports :
        (vs : Items) → OnOk (Reports (item_keys vs)) (replace_items (some f) g vs)
    replace_items-Reports nil = refl
    replace_items-Reports (cons v vs) =
        OnOk-bind (Reports (ref_keys v)) (Reports (item_keys (cons v vs)))
          (replace_ref (some f) g v) _ (replace_ref-Reports v)
          λ x h.
            OnOk-bind (Reports (item_keys vs)) (Reports (item_keys (cons v vs)))
              (replace_items (some f) g vs) _ (replace_items-Reports vs) (λ y k. cc)

    replace_fields-Reports :
        (fs : Fields) → OnOk (Reports (field_keys fs)) (replace_fields (some f) g fs)
    replace_fields-Reports end = refl
    replace_fields-Reports (field j v fs) =
        OnOk-bind (Reports (ref_keys v)) (Reports (field_keys (field j v fs)))
          (replace_ref (some f) g v) _ (replace_ref-Reports v)
          λ x h.
            OnOk-bind (Reports (field_keys fs)) (Reports (field_keys (field j v fs)))
              (replace_fields (some f) g fs) _ (replace_fields-Reports fs) (λ y k. cc)

-- Whatever replaces references and secrets, a `ReplaceRef` that succeeds reports the resource keys
-- of the implicit references in the value, in reading order.
pub replace_ref-keys :
    (f : String → Outcome Value) (g : SecretFun) (v w : Value) (refs : List String)
    → replace_ref (some f) g v ≡ ok (refs, w)
    → refs ≡ ref_keys v
replace_ref-keys f g v w refs e =
    OnOk-ok (λ found. found.0 ≡ ref_keys v) (replace_ref (some f) g v) (refs, w)
      (replace_ref-Reports f g v) e

-- The text is no bare prefix, which names no resource.
abbrev pub names_resource : String → Bool
names_resource s = elim (strip_prefix implicit_ref_prefix s) [
  | none ↦ true
  | some ref ↦ not (ref == "")
]

abbrev Succeeds {ℓ} : {A : Type ℓ} → List String → Outcome (List String × A) → Type ℓ
Succeeds {A = A} ks r = (w : A) × (r ≡ ok (ks, w))

module _ (x : Value) where
  abbrev pub constant : ImplicitFun
  constant = some (λ _. ok x)

  implicit_case-Succeeds :
      (s : String) (o : Option String)
      → elim o [ none ↦ true | some ref ↦ not (ref == "") ] ≡ true
      → Succeeds (named o) (implicit_case (λ _. ok x) s o)
  unfolding implicit_case check_argument
  implicit_case-Succeeds s none h = (str s, refl)
  implicit_case-Succeeds s (some ref) h = (x, rw h)

  mutual
    unfolding replace_ref replace_implicit replace_secret ref_keys all_strings

    replace_ref-Succeeds :
        (v : Value)
        → all_strings names_resource v ≡ true
        → Succeeds (ref_keys v) (replace_ref constant none v)
    replace_ref-Succeeds null h = (null, refl)
    replace_ref-Succeeds (bool b) h = (bool b, refl)
    replace_ref-Succeeds (num n) h = (num n, refl)
    replace_ref-Succeeds (str s) h =
        let (w, e) = implicit_case-Succeeds s (strip_prefix implicit_ref_prefix s) h in (w, rw e)
    replace_ref-Succeeds (list vs) h = let (ws, e) = replace_items-Succeeds vs h in (list ws, rw e)
    replace_ref-Succeeds (object fs) h =
        let (gs, e) = replace_fields-Succeeds fs h in (object gs, rw e)

    replace_items-Succeeds :
        (vs : Items)
        → all_items names_resource vs ≡ true
        → Succeeds (item_keys vs) (replace_items constant none vs)
    replace_items-Succeeds nil h = (nil, refl)
    replace_items-Succeeds (cons v vs) h =
        let (hv, hvs) = and_true (all_strings names_resource v) _ h in
        let (w, e) = replace_ref-Succeeds v hv in
        let (ws, es) = replace_items-Succeeds vs hvs in (cons w ws, rw (e, es))

    replace_fields-Succeeds :
        (fs : Fields)
        → all_fields names_resource fs ≡ true
        → Succeeds (field_keys fs) (replace_fields constant none fs)
    replace_fields-Succeeds end h = (end, refl)
    replace_fields-Succeeds (field k v fs) h =
        let (hv, hfs) = and_true (all_strings names_resource v) _ h in
        let (w, e) = replace_ref-Succeeds v hv in
        let (gs, es) = replace_fields-Succeeds fs hfs in (field k w gs, rw (e, es))

  -- Replacing the implicit references alone, as the parsers do, succeeds on every value none of whose
  -- texts is the bare prefix, and it reports the keys of all its references.
  pub replace_ref_total :
      (v : Value)
      → all_strings names_resource v ≡ true
      → (w : Value) × (replace_ref constant none v ≡ ok (ref_keys v, w))
  replace_ref_total v h = replace_ref-Succeeds v h
