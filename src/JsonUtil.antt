-- ===== src/JsonUtil.antt =====
-- pkg/util/json/json.go: keeping of a live object what its configuration has. Marshalling is third
-- party.
use kusion.Base.{String, Option, none, some, ◌==◌, ◌≡◌, refl, if◌then◌else◌, arith, eq_iff, ◌∙◌, ap}
use kusion.Base.Text.{◌<>◌}
use kusion.Control.{Outcome, ok, panicked, Result, value, error}
use kusion.Value.{Value, null, list, object, Items, nil, cons, Fields, end, field, get_field}

-- `MustMarshal2String`, over the result of `json.Marshal`
unfoldable pub must_marshal_to_string : Result String → Outcome String
must_marshal_to_string (value s) = ok s
must_marshal_to_string (error e) = panicked ("error:" <> e <> ", msg: json marshal failed")

-- `v2 != nil` guards the recursion
abbrev unless_null : Value → Value → Value
unless_null null removed = null
unless_null v2 removed = removed

abbrev keep_field : String → Option Value → (Value → Value) → Fields → Fields
keep_field k none f rest = rest
keep_field k (some v2) f rest = field k (unless_null v2 (f v2)) rest

unfoldable mutual
  pub remove_fields : Value → Value → Value
  remove_fields (object c) (object l) = object (remove_map_fields c l)
  remove_fields (list c) (list l) = list (remove_list_fields c l)
  remove_fields c l = l

  pub remove_map_fields : Fields → Fields → Fields
  remove_map_fields end live = end
  remove_map_fields (field k v1 c) live =
      keep_field k (get_field k live) (λ v2. remove_fields v1 v2) (remove_map_fields c live)

  -- live elements beyond the configuration stay
  pub remove_list_fields : Items → Items → Items
  remove_list_fields nil live = live
  remove_list_fields (cons v1 c) nil = nil
  remove_list_fields (cons v1 c) (cons v2 l) =
      cons (unless_null v2 (remove_fields v1 v2)) (remove_list_fields c l)

-- What a kept map has at a key, from what the configuration and the live map have there.
abbrev pub kept : Option Value → Option Value → Option Value
kept none live = none
kept (some v1) none = none
kept (some v1) (some v2) = some (unless_null v2 (remove_fields v1 v2))

-- the equation of a field of the configuration
remove_map_fields-field :
    (j : String) (v : Value) (c live : Fields)
    → remove_map_fields (field j v c) live
      ≡ keep_field j (get_field j live) (remove_fields v) (remove_map_fields c live)
unfolding remove_fields
remove_map_fields-field j v c live = refl

remove_map_fields-end : (live : Fields) → remove_map_fields end live ≡ end
unfolding remove_fields
remove_map_fields-end live = refl

kept_none : (c : Option Value) → kept c none ≡ none
kept_none none = refl
kept_none (some v) = refl

-- what is kept of one field, or else the rest
abbrev kept_or : Value → Option Value → Option Value → Option Value
kept_or v rest none = rest
kept_or v rest (some v2) = some (unless_null v2 (remove_fields v v2))

kept_or-kept :
    (v : Value) (c rest o : Option Value) → rest ≡ kept c o → kept_or v rest o ≡ kept (some v) o
kept_or-kept v c rest none h = h ∙ kept_none c
kept_or-kept v c rest (some v2) h = refl

get_field-kept_field :
    (k j : String) (v : Value) (o : Option Value) (rest : Fields)
    → get_field k (keep_field j o (remove_fields v) rest)
      ≡ (if j == k then kept_or v (get_field k rest) o else get_field k rest)
unfolding get_field
get_field-kept_field k j v none rest = ground arith
get_field-kept_field k j v (some v2) rest = refl

get_field-first :
    (k j : String) (v : Value) (c rest live : Fields)
    → get_field k rest ≡ kept (get_field k c) (get_field k live)
    → get_field k (keep_field j (get_field j live) (remove_fields v) rest)
      ≡ kept (get_field k (field j v c)) (get_field k live)
unfolding get_field
get_field-first k j v c rest live h = ground (
  arith,
  eq_iff j k,
  get_field-kept_field k j v (get_field j live) rest,
  kept_or-kept v (get_field k c) (get_field k rest) (get_field k live) h,
)

-- Of a live map, exactly the keys of the configuration are kept, each with the value that is kept of the
-- live one, and a null stays a null.
get_field-remove_map_fields :
    (k : String) (c live : Fields)
    → get_field k (remove_map_fields c live) ≡ kept (get_field k c) (get_field k live)
unfolding get_field
get_field-remove_map_fields k end live = ap (get_field k) (remove_map_fields-end live)
get_field-remove_map_fields k (field j v c) live =
    ap (get_field k) (remove_map_fields-field j v c live)
    ∙ get_field-first k j v c (remove_map_fields c live) live (get_field-remove_map_fields k c live)
