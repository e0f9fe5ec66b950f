-- ===== src/Json/Laws.antt =====
-- Laws of the map operations.
use authzen.Base.{◌≡◌, refl, none, some, Text, text_eq, text_eq_iff, arith, if◌then◌else◌}
use authzen.Json.Value.{Any, Fields, end, field, get, set, delete}

pub get-set :
    (k j : Text) (v : Any) (m : Fields)
    → get j (set k v m) ≡ (if text_eq k j then some v else get j m)
unfolding get set
get-set k j v end = refl
get-set k j v (field i w m) =
    ground (arith, text_eq_iff k j, text_eq_iff i k, text_eq_iff i j, get-set k j v m)

pub get-delete :
    (k j : Text) (m : Fields) → get j (delete k m) ≡ (if text_eq k j then none else get j m)
unfolding get delete
get-delete k j end = ground arith
get-delete k j (field i w m) =
    ground (arith, text_eq_iff k j, text_eq_iff i k, text_eq_iff i j, get-delete k j m)

pub delete-absent : (k : Text) (m : Fields) → get k m ≡ none → delete k m ≡ m
unfolding get delete
delete-absent k end h = refl
delete-absent k (field j v m) h = ground (arith, delete-absent k m)

-- A key that was absent is set and deleted with no trace.
pub delete-set : (k : Text) (v : Any) (m : Fields) → get k m ≡ none → delete k (set k v m) ≡ m
unfolding get set delete
delete-set k v end h = ground (arith, text_eq_iff k k)
delete-set k v (field j w m) h = ground (arith, delete-set k v m)
