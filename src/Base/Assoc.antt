-- ===== src/Base/Assoc.antt =====
-- A Go map with string keys, in the order in which a range visits it.
use authzen.Base.Strings.{Text, text_eq, text_eq_iff}
use authzen.Base.Tests.{if◌then◌else◌}
use authzen.Base.Lists.{length}
use Prim.Native.Nat.{◌+◌, ◌≤◌}
use mathlib.Core.Path.{◌≡◌, refl}
use mathlib.Core.List.{List, [], ◌∷◌}
use mathlib.Core.Option.{Option, none, some}
use native.Mathlib.Omega.{arith}

module _ {ℓ} {V : Type ℓ} where
  unfoldable pub find : Text → List (Text × V) → Option V
  find k [] = none
  find k ((j, v) ∷ m) = if text_eq j k then some v else find k m

  unfoldable pub put : Text → V → List (Text × V) → List (Text × V)
  put k v [] = (k, v) ∷ []
  put k v ((j, w) ∷ m) = if text_eq j k then (j, v) ∷ m else (j, w) ∷ put k v m

  unfoldable pub drop_key : Text → List (Text × V) → List (Text × V)
  drop_key k [] = []
  drop_key k ((j, v) ∷ m) = if text_eq j k then drop_key k m else (j, v) ∷ drop_key k m

  pub find-put :
      (k j : Text) (v : V) (m : List (Text × V))
      → find j (put k v m) ≡ (if text_eq k j then some v else find j m)
  unfolding find put
  find-put k j v [] = refl
  find-put k j v ((i, w) ∷ m) =
      ground (arith, text_eq_iff k j, text_eq_iff i k, text_eq_iff i j, find-put k j v m)

  pub find-drop_key :
      (k j : Text) (m : List (Text × V))
      → find j (drop_key k m) ≡ (if text_eq k j then none else find j m)
  unfolding find drop_key
  find-drop_key k j [] = ground arith
  find-drop_key k j ((i, w) ∷ m) =
      ground (arith, text_eq_iff k j, text_eq_iff i k, text_eq_iff i j, find-drop_key k j m)

  pub length-put : (k : Text) (v : V) (m : List (Text × V)) → length (put k v m) ≤ length m + 1
  unfolding put
  length-put k v [] = omega arith
  length-put k v ((j, w) ∷ m) = ground (arith, length-put k v m)

  pub length-put_present :
      (k : Text) (v w : V) (m : List (Text × V)) → find k m ≡ some w → length (put k v m) ≡ length m
  unfolding put find
  length-put_present k v w [] h = cc
  length-put_present k v w ((j, u) ∷ m) h = ground (arith, length-put_present k v w m)

  pub length-drop_key : (k : Text) (m : List (Text × V)) → length (drop_key k m) ≤ length m
  unfolding drop_key
  length-drop_key k [] = omega arith
  length-drop_key k ((j, w) ∷ m) = ground (arith, length-drop_key k m)
