-- ===== src/Client/Trust.antt =====
-- client/client.go: which identifiers pass as the same, and the metadata that is trusted.
use authzen.Base.{
  Result, ok, err, >>=-eq-ok, ok-injective, subst, Bool, true, false, Option, none, some, Text,
  text, text_eq, is_empty, if◌then◌else◌, ◌≡◌, refl, ◌⊎◌, inl, inr, text_eq_iff, Bool-cases,
  Option-cases, sym, ◌∙◌, ap,
}
use authzen.Server.Http.{Metadata}
use authzen.Client.Calls.{Json, metadata, trusted_metadata}
use authzen.Client.Config.{Url, Net, Client}
use authzen.Client.Issuer.{
  is_loopback, scheme_is_permitted, normalize_url, normalize_issuer, same_normalized, same_issuer,
}

false-true : false ≡ true → ⊥
false-true h = cc

none-some : {A : Type 0} {a : A} → ◌≡◌ {A = Option A} none (some a) → ⊥
none-some h = cc

unless-some :
    {A : Type 0} (b : Bool) (x : Option A) {a : A}
    → (if b then none else x) ≡ some a
    → (b ≡ false) × (x ≡ some a)
unless-some true x h = cc
unless-some false x h = (refl, h)

when-some :
    {A : Type 0} (b : Bool) (x : Option A) {a : A} → (if b then x else none) ≡ some a → b ≡ true
when-some true x h = refl
when-some false x h = cc

err_not_ok : {E A : Type 0} {e : E} {a : A} → ◌≡◌ {A = Result E A} (err e) (ok a) → ⊥
err_not_ok h = cc

module _ {W : Type 0} (net : Net W) where
  -- What an identifier must be: it parses, names a host and no user, and uses https, or http to
  -- the loopback interface.
  pub record IsIssuer (raw : Text) : Type 0 where
    pub url : Url
    pub parsed : net.parse_url raw ≡ some url
    pub no_user : url.has_user ≡ false
    pub named : is_empty (net.to_lower url.hostname) ≡ false
    pub permitted :
        (net.to_lower url.scheme ≡ text "https")
        ⊎ ((net.to_lower url.scheme ≡ text "http")
            × (is_loopback net (net.to_lower url.hostname) ≡ true))

  scheme_is_permitted-cases :
      (scheme host : Text)
      → scheme_is_permitted net scheme host ≡ true
      → (scheme ≡ text "https") ⊎ ((scheme ≡ text "http") × (is_loopback net host ≡ true))
  unfolding scheme_is_permitted
  scheme_is_permitted-cases scheme host h = elim (Bool-cases (text_eq scheme (text "https"))) [
    | inl e ↦ inl ((text_eq_iff scheme (text "https")).0 e)
    | inr e ↦ elim (Bool-cases (text_eq scheme (text "http"))) [
      | inl f ↦ inr ((text_eq_iff scheme (text "http")).0 f, rw (e, f) at h)
      | inr f ↦ absurd (false-true (rw (e, f) at h))
    ]
  ]

  normalize_url-some :
      (u : Url) {t : Text}
      → normalize_url net u ≡ some t
      → (u.has_user ≡ false)
        × (is_empty (net.to_lower u.hostname) ≡ false)
        × (scheme_is_permitted net (net.to_lower u.scheme) (net.to_lower u.hostname) ≡ true)
  unfolding normalize_url
  normalize_url-some u h =
      let (no_user, rest) = unless-some u.has_user _ h in
      let (named, last) = unless-some (is_empty (net.to_lower u.hostname)) _ rest in
      (no_user, named, when-some _ _ last)

  normalize_issuer-IsIssuer :
      (raw : Text) {t : Text} → normalize_issuer net raw ≡ some t → IsIssuer raw
  unfolding normalize_issuer
  normalize_issuer-IsIssuer raw h = elim (Option-cases (net.parse_url raw)) [
    | inl e ↦ absurd (none-some (rw (e, normalize_issuer) at h))
    | inr (u, e) ↦
        let (no_user, named, allowed) = normalize_url-some u (rw (e, normalize_issuer) at h) in
        record {
          url = u;
          parsed = e;
          no_user = no_user;
          named = named;
          permitted = scheme_is_permitted-cases _ _ allowed;
        }
  ]

  same_normalized-some :
      (a b : Option Text) → same_normalized a b ≡ true → (t : Text) × (a ≡ some t) × (b ≡ some t)
  unfolding same_normalized
  same_normalized-some none b h = cc
  same_normalized-some (some a) none h = cc
  same_normalized-some (some a) (some b) h = (a, refl, ap some (sym ((text_eq_iff a b).0 h)))

  -- Two identifiers pass as the same exactly when they normalize to one text; then both parse,
  -- name a host and no user, and use https, or http to the loopback interface.
  pub same_issuer-IsIssuer :
      (expected got : Text)
      → same_issuer net expected got ≡ true
      → (normalize_issuer net expected ≡ normalize_issuer net got)
        × IsIssuer expected
        × IsIssuer got
  unfolding same_issuer
  same_issuer-IsIssuer expected got h =
      let (t, e, g) =
        same_normalized-some (normalize_issuer net expected) (normalize_issuer net got) h in
      (e ∙ sym g, normalize_issuer-IsIssuer expected e, normalize_issuer-IsIssuer got g)

  -- The identifier that a metadata document must name.
  unfoldable pub expected_issuer_of : Client → Text
  expected_issuer_of c = if is_empty c.expected_issuer then c.base_url else c.expected_issuer

  trusted_metadata-ok :
      (c : Client) (read m : Metadata)
      → trusted_metadata net c read ≡ ok m
      → (c.skip_metadata_validation ≡ true)
        ⊎ (same_issuer net (expected_issuer_of c) m.policy_decision_point ≡ true)
  unfolding trusted_metadata expected_issuer_of
  trusted_metadata-ok c read m h = elim (Bool-cases c.skip_metadata_validation) [
    | inl e ↦ inl e
    | inr e ↦
        elim (Bool-cases (
          same_issuer net (if is_empty c.expected_issuer then c.base_url else c.expected_issuer)
            read.policy_decision_point)) [
              | inl f ↦ inr (
                  subst
                    (λ d.
                      same_issuer net
                        (if is_empty c.expected_issuer then c.base_url else c.expected_issuer)
                        d.policy_decision_point
                      ≡ true)
                    (ok-injective (rw (e, f, trusted_metadata) at h)) f)
              | inr f ↦ absurd (err_not_ok (rw (e, f, trusted_metadata) at h))
            ]
  ]

  -- Metadata that a client returns was validated, unless the caller disabled that: its decision
  -- point and the expected identifier normalize to one text, parse, name a host and no user, and
  -- use https, or http to the loopback interface.
  pub metadata-trusted :
      (json : Json) (c : Client) (w : W) (m : Metadata)
      → (metadata net json c w).1 ≡ ok m
      → (c.skip_metadata_validation ≡ true)
        ⊎ ((normalize_issuer net (expected_issuer_of c)
              ≡ normalize_issuer net m.policy_decision_point)
            × IsIssuer (expected_issuer_of c)
            × IsIssuer m.policy_decision_point)
  unfolding metadata
  metadata-trusted json c w m h =
      let (read, got, trusted) = >>=-eq-ok (trusted_metadata net c) _ h in
      elim (trusted_metadata-ok c read m trusted) [
        | inl e ↦ inl e
        | inr e ↦ inr (same_issuer-IsIssuer (expected_issuer_of c) m.policy_decision_point e)
      ]
