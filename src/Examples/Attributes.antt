-- ===== src/Examples/Attributes.antt =====
-- References and fields of attributes.
use kusion.Base.{String, true, none, some, List, [], ◌∷◌, ◌≡◌, refl, is_nil}
use kusion.Base.Text.{strip_prefix, split}
use kusion.Control.{Outcome, ok, panicked}
use kusion.Value.{Value, null, num, str, list, object, nil, cons, end, field, get_field}
use kusion.Refs.{
  replace_ref, replace_implicit, replace_secret, is_secured, walk_path, remove_nested_field,
}
use kusion.Refs.Resolved.{
  all_strings, has_no_ref, has_no_secret, replace_ref-has_no_ref, replace_ref-has_no_secret,
}
use kusion.Refs.Collect.{ref_keys, names_resource, replace_ref-keys, replace_ref_total, constant}
use kusion.Refs.Removed.{values_at, diverge, values_at-remove_nested_field}
use kusion.Refs.Nested.{value_at, walk_path-panics}

abbrev referring : Value
referring =
    object
      (field "host" (str "$kusion_path.db.host") (field "pass" (str "ref+vault://shop#/db") end))

abbrev to_host : String → Outcome Value
to_host ref = ok (str "db.local")

abbrev to_secret : String → String → Outcome String
to_secret prefix t = ok "secret"

abbrev referred : Value
referred = object (field "host" (str "db.local") (field "pass" (str "ref+vault://shop#/db") end))

abbrev resolved : Value
resolved = object (field "host" (str "db.local") (field "pass" (str "secret") end))

replaces : replace_ref (some to_host) none referring ≡ ok ("db" ∷ [], referred)
unfolding replace_ref replace_implicit replace_secret strip_prefix split
replaces = refl

resolves : replace_ref (some to_host) (some to_secret) referring ≡ ok ("db" ∷ [], resolved)
unfolding replace_ref replace_implicit replace_secret strip_prefix split is_secured
resolves = refl

host_is_clean : has_no_ref (str "db.local") ≡ true
unfolding strip_prefix all_strings
host_is_clean = refl

host_is_no_secret : has_no_secret (str "db.local") ≡ true
unfolding is_secured all_strings
host_is_no_secret = refl

replace_ref-has_no_ref_example : has_no_ref referred ≡ true
replace_ref-has_no_ref_example =
    replace_ref-has_no_ref to_host referring referred ("db" ∷ []) (λ ref. host_is_clean) replaces

secret_is_clean : is_nil (is_secured "secret") ≡ true
unfolding is_secured strip_prefix
secret_is_clean = refl

replace_ref-has_no_secret_example : has_no_secret resolved ≡ true
replace_ref-has_no_secret_example =
    replace_ref-has_no_secret to_host to_secret referring resolved ("db" ∷ [])
      (λ ref. host_is_no_secret) (λ p t. secret_is_clean) resolves

replace_ref-keys_example : "db" ∷ [] ≡ ref_keys referring
replace_ref-keys_example = replace_ref-keys to_host none referring referred ("db" ∷ []) replaces

referring_names : all_strings names_resource referring ≡ true
unfolding all_strings strip_prefix
referring_names = refl

replace_ref_total_example :
    (w : Value) × (replace_ref (constant null) none referring ≡ ok (ref_keys referring, w))
replace_ref_total_example = replace_ref_total null referring referring_names

-- a list of two ports
abbrev two_ports : Value
two_ports = object (
    field "ports"
      (list (
        cons (object (field "name" (str "http") (field "port" (num 80) end)))
          (cons (object (field "name" (str "https") (field "port" (num 443) end))) nil)))
      end)

values_at-remove_nested_field_example :
    (values_at (remove_nested_field two_ports "ports" ("port" ∷ [])) "ports" ("port" ∷ []) ≡ [])
    × ((i : String) (is : List String)
        → diverge ("ports" ∷ "port" ∷ []) (i ∷ is) ≡ true
        → values_at (remove_nested_field two_ports "ports" ("port" ∷ [])) i is
          ≡ values_at two_ports i is)
values_at-remove_nested_field_example =
    values_at-remove_nested_field two_ports "ports" ("port" ∷ [])

ports_are_there : values_at two_ports "ports" ("port" ∷ []) ≡ num 80 ∷ num 443 ∷ []
unfolding values_at
ports_are_there = refl

host_at : value_at referring ("host" ∷ []) ≡ some (str "$kusion_path.db.host")
unfolding value_at get_field
host_at = refl

walk_path-panics_example :
    walk_path "no value" referring ("host" ∷ "port" ∷ []) ≡ panicked "interface conversion"
walk_path-panics_example =
    walk_path-panics "no value" referring (str "$kusion_path.db.host") ("host" ∷ []) "port" []
      host_at refl
