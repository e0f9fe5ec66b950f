-- ===== src/Approval/PollTests.antt =====
-- Polls, notifications and ids at concrete values.
use authzen.Base.{
  true, List, [], ◌∷◌, some, Text, find, ◌≡◌, ◌⊎◌, pos, ok, arith, text_eq, ◌↔◌, text,
  if◌then◌else◌, ◌≢◌, err, ℕ,
}
use authzen.Approval.Types.{Approval, approved}
use authzen.Approval.Store.{Entry}
use authzen.Approval.Poll.{serve_poll, permits, poll_permits_iff}
use authzen.Approval.Notify.{Notifier, poll, notify, notify-SentTo, SentTo, delivery_mode}
use authzen.Approval.Ids.{AreBytes}
use authzen.Approval.Tests.{id2, two_items, closed_entry}

poll_permits_iff_example :
    (permits (serve_poll (pos 2000) id2 two_items).result ≡ true)
    ↔ ((r : Entry) × (find id2 two_items.items ≡ some r) × (r.approval.status ≡ approved))
poll_permits_iff_example = poll_permits_iff (pos 2000) id2 two_items (λ h. cc)

abbrev pushing : Approval
pushing = record (closed_entry.approval) {
  delivery = text "ping" ∷ text "push" ∷ [];
  callback_url = text "https://pep.example/done";
}

-- A URL is its text, and the validator accepts one URL.
abbrev notifier : Notifier Text
notifier = record {
  parse_url = λ t. ok t;
  url_text = λ t. t;
  new_request = λ p. ok tt;
  send = λ p. ok (pos 204);
  validate = some (λ u.
      if text_eq u (text "https://pep.example/done") then ok tt else err (text "not allowed"));
}

notify-SentTo_example :
    ((notify notifier (some pushing)).1 ≡ [])
    ⊎ ((delivery_mode pushing.delivery ≢ poll)
        × SentTo notifier pushing.callback_url (notify notifier (some pushing)).1)
notify-SentTo_example = notify-SentTo notifier pushing

abbrev drawn : List ℕ
drawn =
    250 ∷ 31 ∷ 68 ∷ 105 ∷ 142 ∷ 179 ∷ 216 ∷ 253 ∷ 34 ∷ 71 ∷ 108 ∷ 145 ∷ 182 ∷ 219 ∷ 0 ∷ 37 ∷ 74
    ∷ 111 ∷ 148 ∷ 185 ∷ 222 ∷ 3 ∷ 40 ∷ 77 ∷ 114 ∷ 151 ∷ 188 ∷ 225 ∷ 6 ∷ 43 ∷ 80 ∷ 117 ∷ []

drawn-AreBytes : AreBytes drawn
drawn-AreBytes = (
  omega arith,
  (
    omega arith,
    (
      omega arith,
      (
        omega arith,
        (
          omega arith,
          (
            omega arith,
            (
              omega arith,
              (
                omega arith,
                (
                  omega arith,
                  (
                    omega arith,
                    (
                      omega arith,
                      (
                        omega arith,
                        (
                          omega arith,
                          (
                            omega arith,
                            (
                              omega arith,
                              (
                                omega arith,
                                (
                                  omega arith,
                                  (
                                    omega arith,
                                    (
                                      omega arith,
                                      (
                                        omega arith,
                                        (
                                          omega arith,
                                          (
                                            omega arith,
                                            (
                                              omega arith,
                                              (
                                                omega arith,
                                                (
                                                  omega arith,
                                                  (
                                                    omega arith,
                                                    (
                                                      omega arith,
                                                      (
                                                        omega arith,
                                                        (
                                                          omega arith,
                                                          (
                                                            omega arith,
                                                            (omega arith, (omega arith, tt)),
                                                          ),
                                                        ),
                                                      ),
                                                    ),
                                                  ),
                                                ),
                                              ),
                                            ),
                                          ),
                                        ),
                                      ),
                                    ),
                                  ),
                                ),
                              ),
                            ),
                          ),
                        ),
                      ),
                    ),
                  ),
                ),
              ),
            ),
          ),
        ),
      ),
    ),
  ),
)
