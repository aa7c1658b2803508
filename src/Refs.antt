-- ===== src/Refs.antt =====
-- The references in a resource's attributes: `ReplaceRef`, `ImplicitReplaceFun` and
-- `removeNestedField` of pkg/engine/operation/graph/resource_node.go, and `IsSecured` of
-- pkg/vals/vals.go.
pub mod Resolved
pub mod Collect
pub mod Nested
pub mod Removed
use kusion.Base.{
  ℕ, suc, String, Bool, true, false, not, Option, none, some, List, [], ◌∷◌, ◌++◌, ◌==◌, ◌≡◌, refl,
  if◌then◌else◌,
}
use kusion.Base.Text.{◌<>◌, strip_prefix, split, first_part}
use kusion.Base.GoMap.{GoMap, get, deref}
use kusion.Status.{illegal_manifest, new_error_status_with_msg}
use kusion.Control.{Outcome, ok, failed, panicked, ◌>>=◌, ◌>>◌, check_argument}
use kusion.Models.{Resource}
use kusion.Value.{
  Value, null, bool, num, str, list, object, Items, nil, cons, Fields, end, field, get_field,
  delete_field,
}

abbrev pub implicit_ref_prefix : String
implicit_ref_prefix = "$kusion_path."

abbrev pub vault_prefix : String
vault_prefix = "ref+vault://"

-- `IsSecured`, over the one supported prefix
unfoldable pub is_secured : String → Option String
unfolding strip_prefix
is_secured s = elim (strip_prefix vault_prefix s) [ none ↦ none | some rest ↦ some vault_prefix ]

-- What replaces the text behind the prefix of an implicit reference; a nil function is `none`.
abbrev pub ImplicitFun : Type 0
ImplicitFun = Option (String → Outcome Value)

-- `replaceSecretFun` at the stores, by prefix and text; `none` where either is nil.
abbrev pub SecretFun : Type 0
SecretFun = Option (String → String → Outcome String)

-- The text with its prefix stripped off, if it has the prefix.
implicit_case : (String → Outcome Value) → String → Option String → Outcome (List String × Value)
unfolding check_argument split
implicit_case f s none = ok ([], str s)
implicit_case f s (some ref) = do
  check_argument (not (ref == "")) (
      "illegal implicit ref:" <> ref <> ". Implicit ref format: " <> implicit_ref_prefix
      <> "resourceKey.attribute")
  v ← f ref
  ok (first_part (split b'.' ref) ∷ [], v)

unfoldable pub replace_implicit : ImplicitFun → String → Outcome (List String × Value)
unfolding implicit_case strip_prefix
replace_implicit none s = ok ([], str s)
replace_implicit (some f) s = implicit_case f s (strip_prefix implicit_ref_prefix s)

secret_case :
    (String → String → Outcome String)
    → String
    → List String × Value
    → Option String
    → Outcome (List String × Value)
secret_case g s found none = ok found
secret_case g s (refs, v) (some prefix) = do t ← g prefix s; ok (refs, str t)

-- The secret is read from the text as it was before an implicit reference was replaced.
unfoldable pub replace_secret :
    SecretFun → String → List String × Value → Outcome (List String × Value)
unfolding secret_case is_secured
replace_secret none s found = ok found
replace_secret (some g) s found = secret_case g s found (is_secured s)

unfoldable mutual
  pub replace_ref : ImplicitFun → SecretFun → Value → Outcome (List String × Value)
  replace_ref f g null = ok ([], null)
  replace_ref f g (bool b) = ok ([], bool b)
  replace_ref f g (num n) = ok ([], num n)
  replace_ref f g (str s) = do found ← replace_implicit f s; replace_secret g s found
  replace_ref f g (list vs) = do (refs, ws) ← replace_items f g vs; ok (refs, list ws)
  replace_ref f g (object fs) = do (refs, gs) ← replace_fields f g fs; ok (refs, object gs)

  pub replace_items : ImplicitFun → SecretFun → Items → Outcome (List String × Items)
  replace_items f g nil = ok ([], nil)
  replace_items f g (cons v vs) = do
    (ref, tv) ← replace_ref f g v
    (refs, ws) ← replace_items f g vs
    ok (ref ++ refs, cons tv ws)

  pub replace_fields : ImplicitFun → SecretFun → Fields → Outcome (List String × Fields)
  replace_fields f g end = ok ([], end)
  replace_fields f g (field k v fs) = do
    (ref, tv) ← replace_ref f g v
    (refs, gs) ← replace_fields f g fs
    ok (ref ++ refs, field k tv gs)

-- The loop of `ImplicitReplaceFun` over the rest of the path. The type assertion panics at a
-- value that is no map.
unfoldable pub walk_path : String → Value → List String → Outcome Value
walk_path msg v [] = ok v
walk_path msg (object fs) (k ∷ ks) = elim (get_field k fs) [
  | none ↦ failed (new_error_status_with_msg illegal_manifest msg)
  | some null ↦ failed (new_error_status_with_msg illegal_manifest msg)
  | some w ↦ walk_path msg w ks
]
walk_path msg _ (k ∷ ks) = panicked "interface conversion"

abbrev rest_parts : List String → List String
rest_parts [] = []
rest_parts (s ∷ ss) = ss

unfoldable pub implicit_replace_fun : GoMap (Option Resource) → String → Outcome Value
unfolding walk_path split
implicit_replace_fun resource_index ref_path =
    let parts = split b'.' ref_path in
    let key = first_part parts in
    elim (deref (get key resource_index)) [
      | none ↦ failed (
          new_error_status_with_msg illegal_manifest
            ("can't find resource by key:" <> key <> " when replacing " <> ref_path))
      | some prior ↦ elim prior.attributes [
        | none ↦
            failed
              (new_error_status_with_msg illegal_manifest ("attributes is nil in resource:" <> key))
        | some attributes ↦
            walk_path ("can't find specified value in resource:" <> key <> " by ref:" <> ref_path)
              (object attributes) (rest_parts parts)
      ]
    ]

-- `removeNestedField` at a path of one name and more; a map or list on the way is changed in place.
unfoldable mutual
  pub remove_nested_field : Value → String → List String → Value
  remove_nested_field (object fs) k [] = object (delete_field k fs)
  remove_nested_field (object fs) k (j ∷ js) = object (remove_in_fields fs k j js)
  remove_nested_field (list vs) k ks = list (remove_in_items vs k ks)
  remove_nested_field v k ks = v

  pub remove_in_items : Items → String → List String → Items
  remove_in_items nil k ks = nil
  remove_in_items (cons v vs) k ks = cons (remove_nested_field v k ks) (remove_in_items vs k ks)

  pub remove_in_fields : Fields → String → String → List String → Fields
  remove_in_fields end k j js = end
  remove_in_fields (field i v fs) k j js =
      let inside = field i (remove_nested_field v j js) fs in
      let behind = field i v (remove_in_fields fs k j js) in if i == k then inside else behind
