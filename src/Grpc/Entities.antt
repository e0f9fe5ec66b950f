-- ===== src/Grpc/Entities.antt =====
-- grpc/conv.go: subjects, resources and actions, both ways.
use authzen.Base.{Returns, bind-Returns, Option, Text, Result, ok, ◌>>=◌, ◌≡◌, refl}
use authzen.Core.Types.{Subject, Resource, Action}
use authzen.Core.Codec.RoundTrip.{carried}
use authzen.Grpc.Proto
use mathlib.Core.Option
use authzen.Grpc.Convert.{pointer, pointer-Reads}
use authzen.Grpc.Struct.{
  StructPb, IsFaithful, struct_to_map, map_to_struct, map_to_struct-ReadsAs, ReadsAs, ReadsAs,
  map_to_struct-ReadsAs,
}

abbrev pub carried_subject : Subject → Subject
carried_subject x = record x { properties = carried x.properties }

abbrev pub carried_resource : Resource → Resource
carried_resource x = record x { properties = carried x.properties }

abbrev pub carried_action : Action → Action
carried_action x = record x { properties = carried x.properties }

module _ {S : Type 0} (pb : StructPb S) where
  unfoldable pub subject_message : Subject → Result Text (Proto.Subject S)
  subject_message s = do
    props ← map_to_struct pb s.properties
    ok (record { type = s.type; id = s.id; properties = props })

  unfoldable pub subject_to_proto : Option Subject → Result Text (Option (Proto.Subject S))
  subject_to_proto = pointer subject_message

  unfoldable pub subject_of : Proto.Subject S → Subject
  subject_of s = record { type = s.type; id = s.id; properties = struct_to_map pb s.properties }

  unfoldable pub subject_from_proto : Option (Proto.Subject S) → Option Subject
  subject_from_proto = Option.map subject_of

  unfoldable pub resource_message : Resource → Result Text (Proto.Resource S)
  resource_message r = do
    props ← map_to_struct pb r.properties
    ok (record { type = r.type; id = r.id; properties = props })

  unfoldable pub resource_to_proto : Option Resource → Result Text (Option (Proto.Resource S))
  resource_to_proto = pointer resource_message

  unfoldable pub resource_of : Proto.Resource S → Resource
  resource_of r = record { type = r.type; id = r.id; properties = struct_to_map pb r.properties }

  unfoldable pub resource_from_proto : Option (Proto.Resource S) → Option Resource
  resource_from_proto = Option.map resource_of

  unfoldable pub action_message : Action → Result Text (Proto.Action S)
  action_message a = do
    props ← map_to_struct pb a.properties
    ok (record { name = a.name; properties = props })

  unfoldable pub action_to_proto : Option Action → Result Text (Option (Proto.Action S))
  action_to_proto = pointer action_message

  unfoldable pub action_of : Proto.Action S → Action
  action_of a = record { name = a.name; properties = struct_to_map pb a.properties }

  unfoldable pub action_from_proto : Option (Proto.Action S) → Option Action
  action_from_proto = Option.map action_of

  pub subject_message-Reads :
      IsFaithful pb
      → (s : Subject) → Returns (λ m. subject_of m ≡ carried_subject s) (subject_message s)
  unfolding subject_message subject_of
  subject_message-Reads faithful s =
      bind-Returns (ReadsAs pb s.properties) _ (map_to_struct pb s.properties) _
        (map_to_struct-ReadsAs pb faithful s.properties) (λ p e. rw e refl)

  pub subject_to_proto-Reads :
      IsFaithful pb
      → (o : Option Subject)
      → Returns (λ m. subject_from_proto m ≡ Option.map carried_subject o) (subject_to_proto o)
  unfolding subject_to_proto subject_from_proto
  subject_to_proto-Reads faithful o =
      pointer-Reads subject_message subject_of carried_subject (subject_message-Reads faithful) o

  pub resource_message-Reads :
      IsFaithful pb
      → (r : Resource) → Returns (λ m. resource_of m ≡ carried_resource r) (resource_message r)
  unfolding resource_message resource_of
  resource_message-Reads faithful r =
      bind-Returns (ReadsAs pb r.properties) _ (map_to_struct pb r.properties) _
        (map_to_struct-ReadsAs pb faithful r.properties) (λ p e. rw e refl)

  pub resource_to_proto-Reads :
      IsFaithful pb
      → (o : Option Resource)
      → Returns (λ m. resource_from_proto m ≡ Option.map carried_resource o) (resource_to_proto o)
  unfolding resource_to_proto resource_from_proto
  resource_to_proto-Reads faithful o =
      pointer-Reads resource_message resource_of carried_resource (resource_message-Reads faithful)
        o

  pub action_message-Reads :
      IsFaithful pb
      → (a : Action) → Returns (λ m. action_of m ≡ carried_action a) (action_message a)
  unfolding action_message action_of
  action_message-Reads faithful a =
      bind-Returns (ReadsAs pb a.properties) _ (map_to_struct pb a.properties) _
        (map_to_struct-ReadsAs pb faithful a.properties) (λ p e. rw e refl)

  pub action_to_proto-Reads :
      IsFaithful pb
      → (o : Option Action)
      → Returns (λ m. action_from_proto m ≡ Option.map carried_action o) (action_to_proto o)
  unfolding action_to_proto action_from_proto
  action_to_proto-Reads faithful o =
      pointer-Reads action_message action_of carried_action (action_message-Reads faithful) o
