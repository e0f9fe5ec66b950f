-- ===== src/Json/Value.antt =====
-- Values and maps, with Go's map operations and type assertions.
use authzen.Base.{ℕ, suc, Bool, Option, none, some, Text, text_eq, ℤ, if◌then◌else◌}

mutual
  pub data Any : Type 0 where
    null : Any
    bool : Bool → Any
    int : ℤ → Any
    int64 : ℤ → Any
    float64 : ℤ → ℕ → Any
    str : Text → Any
    arr : Items → Any
    obj : Fields → Any
    evaluation_error : ℤ → Text → Any

  pub data Items : Type 0 where
    nil : Items
    cons : Any → Items → Items

  pub data Fields : Type 0 where
    end : Fields
    field : Text → Any → Fields → Fields

-- `m[k]`, `m[k] = v`, `delete(m, k)` and `len(m)`.
unfoldable pub get : Text → Fields → Option Any
get k end = none
get k (field j v m) = if text_eq j k then some v else get k m

unfoldable pub set : Text → Any → Fields → Fields
set k v end = field k v end
set k v (field j w m) = if text_eq j k then field j v m else field j w (set k v m)

unfoldable pub delete : Text → Fields → Fields
delete k end = end
delete k (field j v m) = if text_eq j k then delete k m else field j v (delete k m)

unfoldable pub len : Fields → ℕ
len end = 0
len (field j v m) = suc (len m)

-- The same on a map that may be nil.
abbrev pub get_in : Text → Option Fields → Option Any
get_in k none = none
get_in k (some m) = get k m

-- The type assertions `v.(string)` and `v.(map[string]any)`.
abbrev pub as_str : Any → Option Text
as_str (str s) = some s
as_str _ = none

abbrev pub as_obj : Any → Option Fields
as_obj (obj m) = some m
as_obj _ = none

abbrev pub get_from {ℓ} : {A : Type ℓ} → (Any → Option A) → Option Any → Option A
get_from f none = none
get_from f (some v) = f v

-- `m[k].(string)` and `m[k].(map[string]any)`: a missing key fails as a value of another type does.
abbrev pub get_str : Text → Fields → Option Text
get_str k m = get_from as_str (get k m)

abbrev pub get_obj : Text → Fields → Option Fields
get_obj k m = get_from as_obj (get k m)

abbrev pub len_of : Option Fields → ℕ
len_of none = 0
len_of (some m) = len m
