-- ===== src/Grpc/Page.antt =====
-- grpc/conv.go: the pages of search requests and responses, both ways.
use mathlib.Core.Option
use authzen.Base.{
  ◌^◌, ◌-◌, ◌≤◌, Bool, false, ◌&&◌, not, is_some, is_empty, [], Option, none, some, Text, ℤ, pos,
  negsuc, pos_part, neg_part, Result, ok, ◌>>=◌, Returns, bind-Returns, ◌≡◌, refl, sym,
  if◌then◌else◌, ◌==◌, arith,
}
use authzen.Core.Search.{Page, PageResponse}
use authzen.Core.Codec.RoundTrip.{carried}
use authzen.Grpc.Proto
use authzen.Grpc.Convert.{pointer, pointer-Reads, Reads}
use authzen.Grpc.Struct.{
  StructPb, IsFaithful, clamp_int32, struct_to_map, map_to_struct, map_to_struct-ReadsAs, ReadsAs,
}

abbrev pub IsInt32 : ℤ → Type 0
IsInt32 n = (pos_part n ≤ 2 ^ 31 - 1) × (neg_part n ≤ 2 ^ 31)

pub clamp_int32-IsInt32 : (n : ℤ) → IsInt32 (clamp_int32 n)
unfolding clamp_int32
clamp_int32-IsInt32 (pos n) = ground arith
clamp_int32-IsInt32 (negsuc n) = ground arith

pub clamp_int32_same : (n : ℤ) → IsInt32 n → clamp_int32 n ≡ n
unfolding clamp_int32
clamp_int32_same (pos n) h = ground arith
clamp_int32_same (negsuc n) h = ground arith

abbrev pub is_zero : ℤ → Bool
is_zero (pos n) = n == 0
is_zero (negsuc n) = false

is_zero-clamp_int32 : (n : ℤ) → is_zero (clamp_int32 n) ≡ is_zero n
unfolding clamp_int32
is_zero-clamp_int32 (pos n) = ground arith
is_zero-clamp_int32 (negsuc n) = ground arith

-- A page of a request as it comes back: nil when no field of it is set.
abbrev pub carried_page : Option Page → Option Page
carried_page none = none
carried_page (some p) =
    if is_zero p.limit && is_empty p.token && not (is_some (carried p.properties))
    then none
    else some
        (record { token = p.token; limit = clamp_int32 p.limit; properties = carried p.properties })

abbrev pub carried_page_response : PageResponse → PageResponse
carried_page_response p = record {
  next_token = p.next_token;
  count = clamp_int32 p.count;
  total = clamp_int32 p.total;
  properties = carried p.properties;
}

module _ {S : Type 0} (pb : StructPb S) where
  unfoldable pub page_to_proto : Option Page → Result Text (ℤ × Text × Option S)
  page_to_proto none = ok (pos 0, [], none)
  page_to_proto (some p) = do
    props ← map_to_struct pb p.properties
    ok (clamp_int32 p.limit, p.token, props)

  unfoldable pub page_from_proto : ℤ → Text → Option S → Option Page
  page_from_proto size token props =
      if is_zero size && is_empty token && not (is_some props)
      then none
      else some (record { token = token; limit = size; properties = struct_to_map pb props })

  unfoldable pub page_response_message : PageResponse → Result Text (Proto.PageResponse S)
  page_response_message p = do
    props ← map_to_struct pb p.properties
    ok (record {
      next_token = p.next_token;
      count = clamp_int32 p.count;
      total = clamp_int32 p.total;
      properties = props;
    })

  unfoldable pub page_response_to_proto :
      Option PageResponse → Result Text (Option (Proto.PageResponse S))
  page_response_to_proto = pointer page_response_message

  unfoldable pub page_response_of : Proto.PageResponse S → PageResponse
  page_response_of p = record {
    next_token = p.next_token;
    count = p.count;
    total = p.total;
    properties = struct_to_map pb p.properties;
  }

  unfoldable pub page_response_from_proto : Option (Proto.PageResponse S) → Option PageResponse
  page_response_from_proto = Option.map page_response_of

  -- The three fields of a request, as the page that they make.
  abbrev pub page_of : ℤ × Text × Option S → Option Page
  page_of (size, token, props) = page_from_proto size token props

  is_some-struct_to_map : (o : Option S) → is_some (struct_to_map pb o) ≡ is_some o
  unfolding struct_to_map
  is_some-struct_to_map none = refl
  is_some-struct_to_map (some s) = refl

  page_from_proto-ReadsAs :
      (p : Page) (props : Option S)
      → ReadsAs pb p.properties props
      → page_from_proto (clamp_int32 p.limit) p.token props ≡ carried_page (some p)
  unfolding page_from_proto
  page_from_proto-ReadsAs p props e =
      rw (is_zero-clamp_int32 p.limit, sym (is_some-struct_to_map props), e) refl

  pub page_to_proto-Reads :
      IsFaithful pb → (o : Option Page) → Returns (Reads page_of (carried_page o)) (page_to_proto o)
  unfolding page_to_proto page_from_proto
  page_to_proto-Reads faithful none = refl
  page_to_proto-Reads faithful (some p) =
      bind-Returns (ReadsAs pb p.properties) _ (map_to_struct pb p.properties) _
        (map_to_struct-ReadsAs pb faithful p.properties) (page_from_proto-ReadsAs p)

  page_response_message-Reads :
      IsFaithful pb
      → (p : PageResponse)
      → Returns (Reads page_response_of (carried_page_response p)) (page_response_message p)
  unfolding page_response_message page_response_of
  page_response_message-Reads faithful p =
      bind-Returns (ReadsAs pb p.properties) _ (map_to_struct pb p.properties) _
        (map_to_struct-ReadsAs pb faithful p.properties) (λ c e. rw e refl)

  pub page_response_to_proto-Reads :
      IsFaithful pb
      → (o : Option PageResponse)
      → Returns
          (Reads page_response_from_proto (Option.map carried_page_response o))
          (page_response_to_proto o)
  unfolding page_response_to_proto page_response_from_proto
  page_response_to_proto-Reads faithful o =
      pointer-Reads page_response_message page_response_of carried_page_response
        (page_response_message-Reads faithful) o
