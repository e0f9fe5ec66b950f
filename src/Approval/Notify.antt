-- ===== src/Approval/Notify.antt =====
-- approval/notify.go: the callback for a resolved approval. The client of the notifier, url.Parse
-- and the validator are parameters, and the requests that are sent are part of a result.
use authzen.Base.{
  Bool, true, false, List, [], ◌∷◌, Option, none, some, Text, text, text_eq, is_empty, ◌≡◌, refl,
  ◌≢◌, ◌⊎◌, inl, inr, ℤ, pos, ltb_ℤ, ◌||◌, not, Result, ok, err, arith, if◌then◌else◌,
}
use authzen.Approval.Types.{Approval, Status}
use authzen.Approval.Poll.{PollBody, response}

pub data Mode : Type 0 where
  poll ping push : Mode

-- The loop of deliveryMode, with whether ping was seen.
unfoldable pub scan_modes : Bool → List Text → Mode
scan_modes seen [] = if seen then ping else poll
scan_modes seen (d ∷ ds) =
    if text_eq d (text "push")
    then push
    else if text_eq d (text "ping")
    then scan_modes true ds
    else scan_modes seen ds

unfoldable pub delivery_mode : List Text → Mode
delivery_mode = scan_modes false

pub data NotifyError : Type 0 where
  nil_approval no_validator no_callback_url : NotifyError
  invalid_url rejected not_sent : Text → NotifyError
  bad_status : ℤ → NotifyError

-- The body of a callback: the id and the status for ping, the whole response for push.
pub data CallbackBody : Type 0 where
  ping_notification : Text → Status → CallbackBody
  full_response : PollBody → CallbackBody

pub record Posted : Type 0 where
  pub url : Text
  pub body : CallbackBody

-- `new_request` is http.NewRequestWithContext, and `send` is client.Do with the status of the
-- response; a nil validator is `none`.
pub record Notifier (U : Type 0) : Type 0 where
  pub parse_url : Text → Result Text U
  pub url_text : U → Text
  pub new_request : Posted → Result Text (Unit {0})
  pub send : Posted → Result Text ℤ
  pub validate : Option (U → Result Text (Unit {0}))

unfoldable pub lists : Text → List Text → Bool
lists m [] = false
lists m (d ∷ ds) = text_eq d m || lists m ds

scan_modes_lem :
    (seen : Bool) (ds : List Text)
    → scan_modes seen ds ≡ (
        if lists (text "push") ds
        then push
        else if seen || lists (text "ping") ds
        then ping
        else poll)
unfolding scan_modes lists
scan_modes_lem seen [] = ground arith
scan_modes_lem seen (d ∷ ds) = ground (arith, scan_modes_lem true ds, scan_modes_lem seen ds)

-- The delivery mode is push where the list names push, otherwise ping where it names ping, and
-- poll where it names neither, whatever else it names and in whatever order.
pub delivery_mode_lem :
    (ds : List Text)
    → delivery_mode ds
      ≡ (if lists (text "push") ds then push else if lists (text "ping") ds then ping else poll)
unfolding delivery_mode
delivery_mode_lem ds = scan_modes_lem false ds

module _ {U : Type 0} (n : Notifier U) where
  unfoldable pub check_status : Result Text ℤ → Result NotifyError (Unit {0})
  check_status (err e) = err (not_sent e)
  check_status (ok status) =
      if ltb_ℤ status (pos 200) || not (ltb_ℤ status (pos 300))
      then err (bad_status status)
      else ok tt

  unfoldable pub deliver :
      Posted → Result Text (Unit {0}) → Result NotifyError (Unit {0}) × List Posted
  deliver p (err e) = (err (not_sent e), [])
  deliver p (ok built) = (check_status (n.send p), p ∷ [])

  unfoldable pub send_checked :
      CallbackBody → U → Result Text (Unit {0}) → Result NotifyError (Unit {0}) × List Posted
  send_checked body u (err e) = (err (rejected e), [])
  send_checked body u (ok v) =
      deliver (record { url = n.url_text u; body = body })
        (n.new_request (record { url = n.url_text u; body = body }))

  unfoldable pub send_parsed :
      CallbackBody
      → (U → Result Text (Unit {0}))
      → Result Text U
      → Result NotifyError (Unit {0}) × List Posted
  send_parsed body validate (err e) = (err (invalid_url e), [])
  send_parsed body validate (ok u) = send_checked body u (validate u)

  unfoldable pub send_valid :
      Text
      → CallbackBody
      → Option (U → Result Text (Unit {0}))
      → Result NotifyError (Unit {0}) × List Posted
  send_valid raw_url body none = (err no_validator, [])
  send_valid raw_url body (some validate) =
      if is_empty raw_url
      then (err no_callback_url, [])
      else send_parsed body validate (n.parse_url raw_url)

  unfoldable pub post : Text → CallbackBody → Result NotifyError (Unit {0}) × List Posted
  post raw_url body = send_valid raw_url body n.validate

  unfoldable pub notify_mode : Approval → Mode → Result NotifyError (Unit {0}) × List Posted
  notify_mode a poll = (ok tt, [])
  notify_mode a ping = post a.callback_url (ping_notification a.id a.status)
  notify_mode a push = post a.callback_url (full_response (response (some a)))

  unfoldable pub notify : Option Approval → Result NotifyError (Unit {0}) × List Posted
  notify none = (err nil_approval, [])
  notify (some a) = notify_mode a (delivery_mode a.delivery)

  -- A request goes to the URL that the callback URL parses to and that the validator accepts.
  abbrev pub SentTo : Text → List Posted → Type 0
  SentTo raw_url l =
      (validate : (U → Result Text (Unit {0}))) × (u : U) × (body : CallbackBody) × (n.validate
        ≡ some validate)
      × (n.parse_url raw_url ≡ ok u)
      × (validate u ≡ ok tt)
      × (l ≡ record { url = n.url_text u; body = body } ∷ [])

  built_SentTo :
      (raw_url : Text) (body : CallbackBody) (v : U → Result Text (Unit {0})) (u : U)
      → n.validate ≡ some v
      → n.parse_url raw_url ≡ ok u
      → v u ≡ ok tt
      → (r : Result Text (Unit {0}))
      → ((deliver (record { url = n.url_text u; body = body }) r).1 ≡ [])
        ⊎ SentTo raw_url (deliver (record { url = n.url_text u; body = body }) r).1
  unfolding deliver
  built_SentTo raw_url body v u e f g (err w) = inl refl
  built_SentTo raw_url body v u e f g (ok b) = inr (v, u, body, e, f, g, refl)

  checked_SentTo :
      (raw_url : Text) (body : CallbackBody) (v : U → Result Text (Unit {0})) (u : U)
      → n.validate ≡ some v
      → n.parse_url raw_url ≡ ok u
      → (r : Result Text (Unit {0})) → v u ≡ r
      → ((send_checked body u r).1 ≡ []) ⊎ SentTo raw_url (send_checked body u r).1
  unfolding send_checked deliver
  checked_SentTo raw_url body v u e f (err w) g = inl refl
  checked_SentTo raw_url body v u e f (ok tt) g =
      built_SentTo raw_url body v u e f g
        (n.new_request (record { url = n.url_text u; body = body }))

  parsed_SentTo :
      (raw_url : Text) (body : CallbackBody) (v : U → Result Text (Unit {0}))
      → n.validate ≡ some v
      → (r : Result Text U) → n.parse_url raw_url ≡ r
      → ((send_parsed body v r).1 ≡ []) ⊎ SentTo raw_url (send_parsed body v r).1
  unfolding send_parsed
  parsed_SentTo raw_url body v e (err w) f = inl refl
  parsed_SentTo raw_url body v e (ok u) f = checked_SentTo raw_url body v u e f (v u) refl

  valid_SentTo :
      (raw_url : Text) (body : CallbackBody) (o : Option (U → Result Text (Unit {0})))
      → n.validate ≡ o
      → ((send_valid raw_url body o).1 ≡ []) ⊎ SentTo raw_url (send_valid raw_url body o).1
  unfolding send_valid
  valid_SentTo raw_url body none e = inl refl
  valid_SentTo [] body (some v) e = inl refl
  valid_SentTo (c ∷ raw_url) body (some v) e =
      parsed_SentTo (c ∷ raw_url) body v e (n.parse_url (c ∷ raw_url)) refl

  mode_SentTo :
      (a : Approval) (m : Mode)
      → ((notify_mode a m).1 ≡ []) ⊎ ((m ≢ poll) × SentTo a.callback_url (notify_mode a m).1)
  unfolding notify_mode post
  mode_SentTo a poll = inl refl
  mode_SentTo a ping = elim (valid_SentTo a.callback_url _ n.validate refl) [
    | inl e ↦ inl e
    | inr s ↦ inr (λ h. cc, s)
  ]
  mode_SentTo a push = elim (valid_SentTo a.callback_url _ n.validate refl) [
    | inl e ↦ inl e
    | inr s ↦ inr (λ h. cc, s)
  ]

  -- A notification sends no request, or one: then the approval asks for ping or push, there is a
  -- validator, and the request goes to the URL that the callback URL parses to and that the
  -- validator accepts.
  pub notify-SentTo :
      (a : Approval)
      → ((notify (some a)).1 ≡ [])
        ⊎ ((delivery_mode a.delivery ≢ poll) × SentTo a.callback_url (notify (some a)).1)
  unfolding notify
  notify-SentTo a = mode_SentTo a (delivery_mode a.delivery)
