-- ===== src/Json.antt =====
-- The values of a `map[string]any`: what encoding/json decodes a document to, and the Go values
-- that the program itself puts into such maps. A JSON document is its tree of values; its text is
-- not modelled. `float64 z k` is the number z / 2 ^ k, so every finite float64 is one.
mod Laws
pub use Laws.*
mod Value
mod Wire
pub use Value.{
  Any, Items, Fields, null, bool, int, int64, float64, str, arr, obj, evaluation_error, nil, cons,
  end, field, get_in, as_str, as_obj, get_from, get_str, get_obj, len_of,
}
unfoldable pub use Value.{get, set, delete, len}
pub use Wire.{
  float64_of, map_value, float64_of_small, get-wire_fields, delete-wire_fields, len-wire_fields,
}
unfoldable pub use Wire.{wire, wire_items, wire_fields}
