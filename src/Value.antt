-- ===== src/Value.antt =====
-- Go's `interface{}` values as they come from YAML and JSON: what stands in a resource's
-- attributes. A map holds its entries in the order in which a `range` over it visits them.
use kusion.Base.{ℕ, String, Bool, Option, none, some, ◌==◌, ◌≡◌, refl, arith, eq_iff, if◌then◌else◌}

mutual
  pub data Value : Type 0 where
    null : Value
    bool : Bool → Value
    num : ℕ → Value
    str : String → Value
    list : Items → Value
    object : Fields → Value

  pub data Items : Type 0 where
    nil : Items
    cons : Value → Items → Items

  pub data Fields : Type 0 where
    end : Fields
    field : String → Value → Fields → Fields

-- `m[k]`; a missing key reads as the nil interface
unfoldable pub get_field : String → Fields → Option Value
get_field k end = none
get_field k (field j v fs) = if j == k then some v else get_field k fs

unfoldable pub delete_field : String → Fields → Fields
delete_field k end = end
delete_field k (field j v fs) =
    let rest = delete_field k fs in if j == k then rest else field j v rest

-- writes an entry that is there
unfoldable pub set_field : String → Value → Fields → Fields
set_field k w end = field k w end
set_field k w (field j v fs) = if j == k then field k w fs else field j v (set_field k w fs)

pub get_field-delete_field :
    (k j : String) (fs : Fields)
    → get_field j (delete_field k fs) ≡ (if k == j then none else get_field j fs)
unfolding get_field delete_field
get_field-delete_field k j end = ground arith
get_field-delete_field k j (field i v fs) =
    ground (arith, eq_iff k j, eq_iff i k, eq_iff i j, get_field-delete_field k j fs)

pub get_field-set_field :
    (k j : String) (w : Value) (fs : Fields)
    → get_field j (set_field k w fs) ≡ (if k == j then some w else get_field j fs)
unfolding get_field set_field
get_field-set_field k j w end = refl
get_field-set_field k j w (field i v fs) =
    ground (arith, eq_iff k j, eq_iff i k, eq_iff i j, get_field-set_field k j w fs)
