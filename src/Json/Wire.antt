-- ===== src/Json/Wire.antt =====
-- What a value reads as after json.Marshal and json.Unmarshal into `any`: numbers come back as
-- float64, and the error object of a batch member as a map by its json tags. An integer
-- is rounded there to the nearest float64.
use authzen.Base.{
  ℕ, zero, ◌+◌, ◌*◌, ◌/◌, ◌%◌, ◌^◌, ◌<◌, ltb, ◌==◌, ◌||◌, ◌&&◌, if◌then◌else◌, ℤ, pos, negsuc,
  pos_part, neg_part, suc, ◌≡◌, refl, ap, Option, none, some, Text, text, arith,
}
use authzen.Json.Value.{
  Any, Items, Fields, null, bool, int, int64, float64, str, arr, obj, evaluation_error, nil, cons,
  end, field, get, delete, len,
}

-- The lowest bits of an int64 that a float64 has no room for: 11 at most, since 2^64 / 2^11 = 2^53.
excess : ℕ → ℕ → ℕ
excess zero n = 0
excess (suc k) n = let rest = excess k (n / 2) in if ltb n (2 ^ 53) then 0 else suc rest

-- A number without its lowest e bits: the nearest, and of two the one with an even quotient.
round_bits : ℕ → ℕ → ℕ
round_bits e n =
    let q = n / 2 ^ e in
    let double = 2 * (n % 2 ^ e) in
    if ltb double (2 ^ e) || (double == 2 ^ e && q % 2 == 0) then q * 2 ^ e else (q + 1) * 2 ^ e

unfoldable pub rounded : ℕ → ℕ
unfolding excess round_bits
rounded n = round_bits (excess 11 n) n

abbrev neg : ℕ → ℤ
neg zero = pos 0
neg (suc n) = negsuc n

-- The float64 that the decimal digits of an int64 read as.
unfoldable pub float64_of : ℤ → ℤ
float64_of (pos n) = pos (rounded n)
float64_of (negsuc n) = neg (rounded (suc n))

excess_small : (k n : ℕ) → n < 2 ^ 53 → excess k n ≡ 0
unfolding excess
excess_small zero n h = refl
excess_small (suc k) n h = ground arith

round_nothing : (n : ℕ) → round_bits 0 n ≡ n
unfolding round_bits
round_nothing n =
    let whole : n / 2 ^ 0 ≡ n = omega arith in
    let none_left : n % 2 ^ 0 ≡ 0 = omega arith in rw (whole, none_left) (omega arith)

rounded_small : (n : ℕ) → n < 2 ^ 53 → rounded n ≡ n
unfolding rounded
rounded_small n h = rw (excess_small 11 n h) (round_nothing n)

pub float64_of_small : (z : ℤ) → pos_part z + neg_part z < 2 ^ 53 → float64_of z ≡ z
unfolding float64_of
float64_of_small (pos n) h = ap pos (rounded_small n (omega (arith, h)))
float64_of_small (negsuc n) h = ap neg (rounded_small (suc n) (omega (arith, h)))

unfoldable mutual
  pub wire : Any → Any
  wire null = null
  wire (bool b) = bool b
  wire (int z) = float64 (float64_of z) 0
  wire (int64 z) = float64 (float64_of z) 0
  wire (float64 z k) = float64 z k
  wire (str s) = str s
  wire (arr xs) = arr (wire_items xs)
  wire (obj m) = obj (wire_fields m)
  wire (evaluation_error status message) = obj (
      field (text "status") (float64 (float64_of status) 0)
        (field (text "message") (str message) end))

  pub wire_items : Items → Items
  wire_items nil = nil
  wire_items (cons x xs) = cons (wire x) (wire_items xs)

  pub wire_fields : Fields → Fields
  wire_fields end = end
  wire_fields (field k v m) = field k (wire v) (wire_fields m)

abbrev pub map_value : Option Any → Option Any
map_value none = none
map_value (some v) = some (wire v)

pub get-wire_fields : (k : Text) (m : Fields) → get k (wire_fields m) ≡ map_value (get k m)
unfolding get wire_fields
get-wire_fields k end = refl
get-wire_fields k (field j v m) = ground (arith, get-wire_fields k m)

pub delete-wire_fields :
    (k : Text) (m : Fields) → delete k (wire_fields m) ≡ wire_fields (delete k m)
unfolding delete wire_fields
delete-wire_fields k end = refl
delete-wire_fields k (field j v m) = ground (arith, delete-wire_fields k m)

pub len-wire_fields : (m : Fields) → len (wire_fields m) ≡ len m
unfolding len wire_fields
len-wire_fields end = refl
len-wire_fields (field j v m) = ap suc (len-wire_fields m)
