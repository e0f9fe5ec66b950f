-- ===== src/Client/Hops.antt =====
-- client/client.go: which requests of a chain of redirects carry the token.
use authzen.Base.{
  ◌⊎◌, inl, inr, ◌&&◌, ◌||◌, not, Bool, true, false, List, [], ◌∷◌, ◌++◌, none, Text, text,
  if◌then◌else◌, leb, length, Result, ok, err, ◌≡◌, refl, ◌≤◌, ◌<◌, arith, Bool-cases, ◌+◌,
  ok-injective, inl, sym, leb-false, >>=-eq-ok, length-append, subst, ap, inr,
}
use authzen.Client.Config.{Url, HttpRequest, Net}
use authzen.Client.Redirect.{
  last_of, strips, strip_after, strip_sensitive_on_redirect, follow, is_downgrade, is_cross_host,
}

unless-ok :
    {A : Type 0} (b : Bool) (e : Text) (x : Result Text A) {a : A}
    → (if b then err e else x) ≡ ok a
    → (b ≡ false) × (x ≡ ok a)
unless-ok true e x h = cc
unless-ok false e x h = (refl, h)

module _ {W : Type 0} (net : Net W) where
  -- The next request goes to the same host and does not leave https.
  pub Stays : Url → Url → Type 0
  Stays prev next =
      (net.equal_fold prev.host next.host ≡ true)
      × ((net.equal_fold prev.scheme (text "https") ≡ false)
          ⊎ (net.equal_fold next.scheme (text "https") ≡ true))

  -- After a request, each one carries no credentials or stays where the one before it went.
  pub IsStripped : HttpRequest → List HttpRequest → Type 0
  IsStripped p [] = Unit {0}
  IsStripped p (q ∷ qs) = ((q.authorization ≡ none) ⊎ Stays p.url q.url) × IsStripped q qs

  IsStripped-append :
      (p : HttpRequest) (qs : List HttpRequest) (r : HttpRequest)
      → IsStripped p qs
      → (r.authorization ≡ none) ⊎ Stays (last_of p qs).url r.url
      → IsStripped p (qs ++ r ∷ [])
  unfolding IsStripped last_of
  IsStripped-append p [] r s h = (h, tt)
  IsStripped-append p (q ∷ qs) r (s, ss) h = (s, IsStripped-append q qs r ss h)

  guard-Stays :
      (before after host : Bool)
      → ((before && not after) || not host) ≡ false
      → (host ≡ true) × ((before ≡ false) ⊎ (after ≡ true))
  guard-Stays false after true h = (refl, inl refl)
  guard-Stays true true true h = (refl, inr refl)
  guard-Stays true false host h = cc
  guard-Stays true true false h = cc
  guard-Stays false after false h = cc

  strips-Stays : (prev next : Url) → strips net prev next ≡ false → Stays prev next
  unfolding strips is_downgrade is_cross_host Stays
  strips-Stays prev next h = guard-Stays _ _ _ h

  strip_after-stripped :
      (prev : Url) (r : HttpRequest)
      → strips net prev r.url ≡ true
      → strip_after net prev r ≡ record r { authorization = none }
  unfolding strip_after
  strip_after-stripped prev r h = rw (h)

  strip_after-kept :
      (prev : Url) (r : HttpRequest) → strips net prev r.url ≡ false → strip_after net prev r ≡ r
  unfolding strip_after
  strip_after-kept prev r h = rw (h)

  strip_after-strips :
      (prev : Url) (r : HttpRequest)
      → ((strip_after net prev r).authorization ≡ none) ⊎ Stays prev (strip_after net prev r).url
  strip_after-strips prev r = elim (Bool-cases (strips net prev r.url)) [
    | inl e ↦ inl (ap (λ q. q.authorization) (strip_after-stripped prev r e))
    | inr e ↦ inr (
        subst (λ q. Stays prev q.url) (sym (strip_after-kept prev r e)) (strips-Stays prev r.url e))
  ]

  strip_sensitive_on_redirect-ok :
      (r p : HttpRequest) (via : List HttpRequest) {q : HttpRequest}
      → strip_sensitive_on_redirect net r (p ∷ via) ≡ ok q
      → (strip_after net (last_of p via).url r ≡ q) × (length via < 9)
  unfolding strip_sensitive_on_redirect
  strip_sensitive_on_redirect-ok r p via h =
      let (few, same) = unless-ok (leb 10 (length (p ∷ via))) _ _ h in
      (ok-injective same, omega (arith, leb-false 10 (length (p ∷ via)) few))

  module _ (repeats : HttpRequest → Url → HttpRequest) (first : HttpRequest) where
    follow-chain :
        (p : HttpRequest) (via : List HttpRequest) (urls : List Url) {all : List HttpRequest}
        → IsStripped p via
        → length via ≤ 9
        → follow net repeats first (p ∷ via) urls ≡ ok all
        → (rest : List HttpRequest) × (all ≡ p ∷ rest)
          × IsStripped p rest
          × (length rest ≡ length via + length urls)
          × (length rest ≤ 9)
    unfolding follow
    follow-chain p via [] s few h = (via, sym (ok-injective h), s, omega arith, few)
    follow-chain p via (u ∷ us) s few h =
        let (r, hook, next) =
          >>=-eq-ok _ (strip_sensitive_on_redirect net (repeats first u) (p ∷ via)) h in
        let (same, room) = strip_sensitive_on_redirect-ok (repeats first u) p via hook in
        let longer = length-append via (r ∷ []) in
        let (rest, e, s', count, bound) =
          follow-chain p (via ++ r ∷ []) us
            (IsStripped-append p via r s (
              subst (λ q. (q.authorization ≡ none) ⊎ Stays (last_of p via).url q.url) same
                (strip_after-strips (last_of p via).url (repeats first u))))
            (omega (arith, longer, room)) next in
        (rest, e, s', omega (arith, count, longer), bound)

    -- A chain of redirects makes one request for each URL, at most nine, and none carries
    -- credentials when it leaves the host of the request before it, or https.
    pub follow-IsStripped :
        (urls : List Url) {all : List HttpRequest}
        → follow net repeats first (first ∷ []) urls ≡ ok all
        → (rest : List HttpRequest) × (all ≡ first ∷ rest)
          × IsStripped first rest
          × (length rest ≡ length urls)
          × (length rest ≤ 9)
    unfolding IsStripped
    follow-IsStripped urls h =
        let (rest, e, s, count, bound) = follow-chain first [] urls tt (omega arith) h in
        (rest, e, s, omega (arith, count), bound)

    -- After a redirect that leaves https, a second redirect within the same host carries the token
    -- of the first request again, whatever its scheme, where the HTTP client repeats that header
    -- for it.
    pub follow-token_returns :
        (u v : Url)
        → ((w : Url) → (repeats first w).url ≡ w)
        → ((repeats first v).authorization ≡ first.authorization)
        → net.equal_fold first.url.scheme (text "https") ≡ true
        → net.equal_fold u.scheme (text "https") ≡ false
        → net.equal_fold u.host v.host ≡ true
        → (r s : HttpRequest) × (follow net repeats first (first ∷ []) (u ∷ v ∷ [])
            ≡ ok (first ∷ r ∷ s ∷ []))
          × (r.url ≡ u)
          × (r.authorization ≡ none)
          × (s.url ≡ v)
          × (s.authorization ≡ first.authorization)
    unfolding follow strip_sensitive_on_redirect strip_after strips is_downgrade is_cross_host
        last_of
    follow-token_returns u v at same fu fv h2 =
        let one = strip_after-stripped first.url (repeats first u) (rw (at u, fu, fv)) in
        let two =
          strip_after-kept (repeats first u).url (repeats first v) (rw (at u, at v, fv, h2)) in
        (
          record (repeats first u) { authorization = none },
          repeats first v,
          rw (one, two),
          at u,
          refl,
          at v,
          same,
        )
