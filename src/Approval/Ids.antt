-- ===== src/Approval/Ids.antt =====
-- approval/store.go, newID: 32 random bytes in the URL-safe base64 alphabet, without padding.
use authzen.Base.{
  some_injective, ℕ, ◌+◌, ◌*◌, ◌<◌, Bool, true, ◌&&◌, ◌||◌, List, [], ◌∷◌, Option, none, some, Text,
  ltb, leb, ◌==◌, length, All, ◌≡◌, refl, arith, if◌then◌else◌,
}
use Prim.Native.Nat.{◌/◌, ◌%◌, ◌-◌}

-- The character of a number below 64.
unfoldable pub digit : ℕ → ℕ
digit s =
    if ltb s 26
    then b'A' + s
    else if ltb s 52
    then b'a' + (s - 26)
    else if ltb s 62
    then b'0' + (s - 52)
    else if s == 62
    then b'-'
    else b'_'

unfoldable pub encode : List ℕ → Text
encode [] = []
encode (a ∷ []) = digit (a / 4) ∷ digit ((a % 4) * 16) ∷ []
encode (a ∷ b ∷ []) = digit (a / 4) ∷ digit ((a % 4) * 16 + b / 16) ∷ digit ((b % 16) * 4) ∷ []
encode (a ∷ b ∷ c ∷ rest) =
    digit (a / 4)
    ∷ digit ((a % 4) * 16 + b / 16)
    ∷ digit ((b % 16) * 4 + c / 64)
    ∷ digit (c % 64)
    ∷ encode rest

-- The bytes that io.ReadFull has read, or its failure.
unfoldable pub new_id : Option (List ℕ) → Option Text
new_id none = none
new_id (some bytes) = some (encode bytes)

-- The inverse of digit.
value_of : ℕ → ℕ
value_of c =
    if c == b'-'
    then 62
    else if c == b'_'
    then 63
    else if leb b'a' c
    then c - b'a' + 26
    else if leb b'A' c
    then c - b'A'
    else c - b'0' + 52

-- The three bytes of four digits.
first : ℕ → ℕ → ℕ
first p q = value_of p * 4 + value_of q / 16

second : ℕ → ℕ → ℕ
second q r = (value_of q % 16) * 16 + value_of r / 4

third : ℕ → ℕ → ℕ
third r t = (value_of r % 4) * 64 + value_of t

decode : Text → List ℕ
decode [] = []
decode (p ∷ []) = []
decode (p ∷ q ∷ []) = (first p q) ∷ []
decode (p ∷ q ∷ r ∷ []) = (first p q) ∷ (second q r) ∷ []
decode (p ∷ q ∷ r ∷ t ∷ rest) = (first p q) ∷ (second q r) ∷ (third r t) ∷ decode rest

value_of-digit : (s : ℕ) → s < 64 → value_of (digit s) ≡ s
unfolding value_of digit
value_of-digit s h = ground arith

first-digit : (a b : ℕ) → a < 256 → b < 16 → first (digit (a / 4)) (digit ((a % 4) * 16 + b)) ≡ a
unfolding first
first-digit a b h k =
    rw (value_of-digit (a / 4) (omega arith), value_of-digit ((a % 4) * 16 + b) (omega arith))
      (omega arith)

second-digit :
    (x b c : ℕ)
    → x < 4
    → b < 256
    → c < 4
    → second (digit (x * 16 + b / 16)) (digit ((b % 16) * 4 + c)) ≡ b
unfolding second
second-digit x b c h k l =
    rw
      (
        value_of-digit (x * 16 + b / 16) (omega arith),
        value_of-digit ((b % 16) * 4 + c) (omega arith),
      )
      (omega arith)

third-digit : (x c : ℕ) → x < 16 → c < 256 → third (digit (x * 4 + c / 64)) (digit (c % 64)) ≡ c
unfolding third
third-digit x c h k =
    rw (value_of-digit (x * 4 + c / 64) (omega arith), value_of-digit (c % 64) (omega arith))
      (omega arith)

first-digit_last : (a : ℕ) → a < 256 → first (digit (a / 4)) (digit ((a % 4) * 16)) ≡ a
unfolding first
first-digit_last a h =
    rw (value_of-digit (a / 4) (omega arith), value_of-digit ((a % 4) * 16) (omega arith))
      (omega arith)

second-digit_last :
    (x b : ℕ) → x < 4 → b < 256 → second (digit (x * 16 + b / 16)) (digit ((b % 16) * 4)) ≡ b
unfolding second
second-digit_last x b h k =
    rw (value_of-digit (x * 16 + b / 16) (omega arith), value_of-digit ((b % 16) * 4) (omega arith))
      (omega arith)

abbrev pub AreBytes : List ℕ → Type 0
AreBytes = All (λ b. b < 256)

decode-encode : (bs : List ℕ) → AreBytes bs → decode (encode bs) ≡ bs
unfolding decode encode
decode-encode [] h = refl
decode-encode (a ∷ []) (h, _) = rw (first-digit_last a h) refl
decode-encode (a ∷ b ∷ []) (h, (k, _)) =
    rw (first-digit a (b / 16) h (omega arith), second-digit_last (a % 4) b (omega arith) k) refl
decode-encode (a ∷ b ∷ c ∷ rest) (h, (k, (l, m))) =
    rw
      (
        first-digit a (b / 16) h (omega arith),
        second-digit (a % 4) b (c / 64) (omega arith) k (omega arith),
        third-digit (b % 16) c (omega arith) l,
        decode-encode rest m,
      )
      refl

-- The characters of RFC 4648's URL-safe alphabet.
abbrev pub is_url_safe : ℕ → Bool
is_url_safe c =
    (leb b'a' c && leb c b'z')
    || (leb b'A' c && leb c b'Z')
    || (leb b'0' c && leb c b'9')
    || c == b'-'
    || c == b'_'

digit-safe : (s : ℕ) → s < 64 → is_url_safe (digit s) ≡ true
unfolding digit
digit-safe s h = ground arith

encode-safe : (bs : List ℕ) → AreBytes bs → All (λ c. is_url_safe c ≡ true) (encode bs)
unfolding encode
encode-safe [] h = tt
encode-safe (a ∷ []) (h, _) = (digit-safe _ (omega arith), (digit-safe _ (omega arith), tt))
encode-safe (a ∷ b ∷ []) (h, (k, _)) =
    (digit-safe _ (omega arith), (digit-safe _ (omega arith), (digit-safe _ (omega arith), tt)))
encode-safe (a ∷ b ∷ c ∷ rest) (h, (k, (l, m))) = (
  digit-safe _ (omega arith),
  (
    digit-safe _ (omega arith),
    (digit-safe _ (omega arith), (digit-safe _ (omega arith), encode-safe rest m)),
  ),
)

-- Four characters for three bytes, and one more than the bytes that are left.
length-encode : (bs : List ℕ) → length (encode bs) ≡ (length bs * 4 + 2) / 3
unfolding encode
length-encode [] = refl
length-encode (a ∷ []) = refl
length-encode (a ∷ b ∷ []) = refl
length-encode (a ∷ b ∷ c ∷ rest) = omega (arith, length-encode rest)

same_code : (s u : Text) (bs cs : List ℕ) → s ≡ u → decode s ≡ bs → decode u ≡ cs → bs ≡ cs
same_code s u bs cs e h k = cc

-- Different random bytes make different ids.
pub new_id_injective :
    (bs cs : List ℕ) → AreBytes bs → AreBytes cs → new_id (some bs) ≡ new_id (some cs) → bs ≡ cs
unfolding new_id
new_id_injective bs cs h k e =
    same_code _ _ bs cs (some_injective e) (decode-encode bs h) (decode-encode cs k)

-- The id of 32 random bytes has 43 characters, all of them from the URL-safe alphabet.
pub new_id_bounds :
    (bs : List ℕ)
    → AreBytes bs
    → length bs ≡ 32
    → (id : Text) × (new_id (some bs) ≡ some id)
      × (length id ≡ 43)
      × All (λ c. is_url_safe c ≡ true) id
unfolding new_id
new_id_bounds bs h n = (encode bs, refl, omega (arith, length-encode bs), encode-safe bs h)
