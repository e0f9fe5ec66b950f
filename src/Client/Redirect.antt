-- ===== src/Client/Redirect.antt =====
-- client/client.go: stripSensitiveOnRedirect, and the chain of requests an http.Client makes with it
-- as its CheckRedirect hook. Which headers of the first request a later one repeats is a parameter.
use authzen.Base.{
  Bool, ◌&&◌, ◌||◌, not, List, [], ◌∷◌, ◌++◌, none, Text, text, if◌then◌else◌, leb, length, Result,
  ok, err, ◌>>=◌,
}
use authzen.Client.Config.{Url, HttpRequest, Net}

-- The last of the requests that were made, which stand oldest first.
unfoldable pub last_of : HttpRequest → List HttpRequest → HttpRequest
last_of r [] = r
last_of r (s ∷ via) = last_of s via

module _ {W : Type 0} (net : Net W) where
  unfoldable pub is_downgrade : Url → Url → Bool
  is_downgrade prev next =
      net.equal_fold prev.scheme (text "https") && not (net.equal_fold next.scheme (text "https"))

  unfoldable pub is_cross_host : Url → Url → Bool
  is_cross_host prev next = not (net.equal_fold prev.host next.host)

  unfoldable pub strips : Url → Url → Bool
  strips prev next = is_downgrade prev next || is_cross_host prev next

  unfoldable pub strip_after : Url → HttpRequest → HttpRequest
  strip_after prev r = if strips prev r.url then record r { authorization = none } else r

  -- The hook, on a request that is about to be made and those that were made.
  unfoldable pub strip_sensitive_on_redirect :
      HttpRequest → List HttpRequest → Result Text HttpRequest
  strip_sensitive_on_redirect r via =
      if leb 10 (length via)
      then err (text "stopped after 10 redirects")
      else elim via [ [] ↦ ok r | v ∷ vs ↦ ok (strip_after (last_of v vs).url r) ]

  -- `repeats`: the request an http.Client makes of its first one for another URL, with the headers of
  -- the first, before the hook sees it.
  module _ (repeats : HttpRequest → Url → HttpRequest) (first : HttpRequest) where
    -- The requests made when the answers redirect to these URLs in turn.
    unfoldable pub follow : List HttpRequest → List Url → Result Text (List HttpRequest)
    follow via [] = ok via
    follow via (u ∷ us) = do
      r ← strip_sensitive_on_redirect (repeats first u) via
      follow (via ++ r ∷ []) us
