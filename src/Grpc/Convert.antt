-- ===== src/Grpc/Convert.antt =====
-- grpc/conv.go: the loops and the nil checks that the conversions share, with their laws.
use mathlib.Core.Option
use authzen.Base.{
  List, [], ◌∷◌, map, Option, none, some, Text, Result, ok, ◌>>=◌, Returns, bind-Returns, ap, ◌≡◌,
  refl,
}

-- The conversion of a pointer: nil stays nil.
abbrev pub pointer : {A B : Type 0} → (A → Result Text B) → Option A → Result Text (Option B)
pointer f none = ok none
pointer f (some a) = do b ← f a; ok (some b)

-- A loop that converts each element and stops at the first error.
unfoldable pub traverse : {A B : Type 0} → (A → Result Text B) → List A → Result Text (List B)
traverse f [] = ok []
traverse f (a ∷ more) = do b ← f a; bs ← traverse f more; ok (b ∷ bs)

-- What b reads as.
abbrev pub Reads : {A B : Type 0} → (B → A) → A → B → Type 0
Reads g a b = g b ≡ a

pub pointer-Reads :
    {A B : Type 0} (f : A → Result Text B) (g : B → A) (c : A → A)
    → ((a : A) → Returns (λ b. g b ≡ c a) (f a))
    → (o : Option A) → Returns (λ p. Option.map g p ≡ Option.map c o) (pointer f o)
pointer-Reads f g c h none = refl
pointer-Reads f g c h (some a) =
    bind-Returns (λ b. g b ≡ c a) _ (f a) _ (h a) (λ b e. ap (λ v. some v) e)

pub traverse-Reads :
    {A B : Type 0} (f : A → Result Text B) (g : B → A) (c : A → A)
    → ((a : A) → Returns (λ b. g b ≡ c a) (f a))
    → (l : List A) → Returns (λ bs. map g bs ≡ map c l) (traverse f l)
unfolding traverse
traverse-Reads f g c h [] = refl
traverse-Reads f g c h (a ∷ l) =
    bind-Returns (λ b. g b ≡ c a) _ (f a) _ (h a)
      (λ b e.
        bind-Returns (λ bs. map g bs ≡ map c l) _ (traverse f l) _ (traverse-Reads f g c h l)
          (λ bs d. rw (e, d) refl))
