-- ===== src/Grpc/Struct.antt =====
-- grpc/conv.go: free-form objects as google.protobuf.Struct, and the narrowing of integers.
use authzen.Base.{
  ap, ◌^◌, ◌-◌, Bool, true, false, Option, none, some, Text, text, ℤ, pos, negsuc, ltb_ℤ, Result,
  ok, ◌>>=◌, if◌then◌else◌, ◌==◌, ◌≡◌, refl, Returns, bind-Returns,
}
use authzen.Json.{
  Any, Fields, null, obj, str, float64, evaluation_error, end, field, len, wire, wire_fields,
  float64_of,
}
use authzen.Core.Codec.RoundTrip.{carried}

-- The package structpb, which is not part of the repository: NewStruct, with the text of its error,
-- and AsMap.
pub record StructPb (S : Type 0) : Type 0 where
  pub new_struct : Fields → Result Text S
  pub as_map : S → Fields

-- What its documentation says of the two on values that encoding/json has read.
pub record IsFaithful {S : Type 0} (pb : StructPb S) : Type 0 where
  pub new_struct-as_map :
      (m : Fields) → Returns (λ s. pb.as_map s ≡ wire_fields m) (pb.new_struct (wire_fields m))

-- A value that encoding/json accepts, as it reads back from the wire.
unfoldable pub normalize_value : Any → Any
normalize_value null = null
normalize_value (evaluation_error status message) = obj (
    field (text "status") (float64 (float64_of status) 0)
      (field (text "message") (str message) end))
normalize_value v = wire v

unfoldable pub normalize_map : Fields → Fields
normalize_map end = end
normalize_map (field k v m) = field k (normalize_value v) (normalize_map m)

normalize_value-wire : (v : Any) → normalize_value v ≡ wire v
unfolding normalize_value wire
normalize_value-wire null = refl
normalize_value-wire (evaluation_error status message) = refl
normalize_value-wire v = refl

pub normalize_map-wire_fields : (m : Fields) → normalize_map m ≡ wire_fields m
unfolding normalize_map wire_fields
normalize_map-wire_fields end = refl
normalize_map-wire_fields (field k v m) =
    rw (normalize_value-wire v, normalize_map-wire_fields m) refl

unfoldable pub clamp_int32 : ℤ → ℤ
clamp_int32 n =
    if ltb_ℤ (pos (2 ^ 31 - 1)) n
    then pos (2 ^ 31 - 1)
    else if ltb_ℤ n (negsuc (2 ^ 31 - 1))
    then negsuc (2 ^ 31 - 1)
    else n

module _ {S : Type 0} (pb : StructPb S) where
  unfoldable pub struct_to_map : Option S → Option Fields
  struct_to_map none = none
  struct_to_map (some s) = some (pb.as_map s)

  unfoldable pub struct_of : Fields → Result Text (Option S)
  struct_of m =
      if len m == 0 then ok none else (pb.new_struct (normalize_map m) >>= λ s. ok (some s))

  unfoldable pub map_to_struct : Option Fields → Result Text (Option S)
  map_to_struct none = ok none
  map_to_struct (some m) = struct_of m

  -- A map that is converted and read back is the one that JSON would carry.
  abbrev pub ReadsAs : Option Fields → Option S → Type 0
  ReadsAs c s = struct_to_map s ≡ carried c

  branch-ReadsAs :
      (b : Bool) (w : Fields) (m : Result Text S)
      → Returns (λ s. pb.as_map s ≡ w) m
      → Returns
          (λ s. struct_to_map s ≡ (if b then none else some w))
          (if b then ok none else (m >>= λ s. ok (some s)))
  unfolding struct_to_map
  branch-ReadsAs true w m h = refl
  branch-ReadsAs false w m h =
      bind-Returns (λ s. pb.as_map s ≡ w) _ m _ h (λ s e. ap (λ v. some v) e)

  struct_of-ReadsAs : IsFaithful pb → (m : Fields) → Returns (ReadsAs (some m)) (struct_of m)
  unfolding struct_of
  struct_of-ReadsAs faithful m =
      rw (normalize_map-wire_fields m)
        (branch-ReadsAs (len m == 0) (wire_fields m) _ (faithful.new_struct-as_map m))

  pub map_to_struct-ReadsAs :
      IsFaithful pb → (c : Option Fields) → Returns (ReadsAs c) (map_to_struct c)
  unfolding map_to_struct struct_to_map
  map_to_struct-ReadsAs faithful none = refl
  map_to_struct-ReadsAs faithful (some m) = struct_of-ReadsAs faithful m
