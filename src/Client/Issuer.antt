-- ===== src/Client/Issuer.antt =====
-- client/client.go: endpoints, and the identifiers of decision points.
use authzen.Base.{
  ℕ, Bool, true, false, ◌&&◌, ◌||◌, [], ◌∷◌, ◌++◌, Option, none, some, Text, text, text_eq,
  is_empty, if◌then◌else◌, ◌==◌,
}
use authzen.Client.Config.{Url, Net, Client}

abbrev pub slash : ℕ
slash = b'/'

-- strings.TrimRight(s, "/")
unfoldable pub trim_right_slash : Text → Text
trim_right_slash [] = []
trim_right_slash (c ∷ s) =
    let rest = trim_right_slash s in if c == slash && is_empty rest then [] else c ∷ rest

unfoldable pub has_prefix : Text → Text → Bool
has_prefix [] s = true
has_prefix (c ∷ p) [] = false
has_prefix (c ∷ p) (d ∷ s) = c == d && has_prefix p s

-- strings.Contains
unfoldable pub contains : Text → Text → Bool
contains p [] = is_empty p
contains p (c ∷ s) = has_prefix p (c ∷ s) || contains p s

unfoldable pub endpoint : Client → Text → Text → Text
endpoint c custom default =
    let p = if is_empty custom then default else custom in
    if contains (text "://") p then p else trim_right_slash c.base_url ++ p

unfoldable pub effective_port : Text → Text → Text
effective_port scheme port =
    if (text_eq scheme (text "https") && text_eq port (text "443"))
      || (text_eq scheme (text "http") && text_eq port (text "80"))
    then []
    else port

unfoldable pub canonical : Text → Text → Text → Text → Text
canonical scheme host port path =
    let authority = if is_empty port then host else host ++ b':' ∷ port in
    scheme ++ text "://" ++ authority ++ trim_right_slash path

unfoldable pub same_normalized : Option Text → Option Text → Bool
same_normalized (some e) (some g) = text_eq e g
same_normalized _ _ = false

module _ {W : Type 0} (net : Net W) where
  unfoldable pub is_loopback : Text → Bool
  is_loopback hostname =
      if net.equal_fold hostname (text "localhost")
      then true
      else elim (net.ip_is_loopback hostname) [ none ↦ false | some b ↦ b ]

  -- `switch scheme`: https, or http to the loopback interface.
  unfoldable pub scheme_is_permitted : Text → Text → Bool
  scheme_is_permitted scheme host =
      if text_eq scheme (text "https")
      then true
      else if text_eq scheme (text "http")
      then is_loopback host
      else false

  unfoldable pub normalize_url : Url → Option Text
  normalize_url u =
      let scheme = net.to_lower u.scheme in
      let host = net.to_lower u.hostname in
      if u.has_user
      then none
      else if is_empty host
      then none
      else if scheme_is_permitted scheme host
      then some (canonical scheme host (effective_port scheme u.port) u.path)
      else none

  unfoldable pub normalize_issuer : Text → Option Text
  normalize_issuer raw = elim (net.parse_url raw) [ none ↦ none | some u ↦ normalize_url u ]

  unfoldable pub same_issuer : Text → Text → Bool
  same_issuer expected got = same_normalized (normalize_issuer expected) (normalize_issuer got)
