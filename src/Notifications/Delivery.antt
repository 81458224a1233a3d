-- ===== src/Notifications/Delivery.antt =====
-- app/notifications.py: `deliver_next`. The settings are read from the encrypted store; the messages
-- that were handed to a sender are a result of the call.
pub mod Guards
mod Examples
use leakcheck_hub.Prelude.{
  ◌>>=◌, ◌>>◌, ℕ, ◌+◌, Bool, true, false, not, ◌&&◌, ◌||◌, Option, none, some, List, [], ◌∷◌, Text,
  codes, ltb, ◌==◌, if◌then◌else◌, find, update, count, is_some, first_where, Outcome, ok, err,
  Error,
}
use leakcheck_hub.Models.{
  User, Notification, NotificationStatus, PlatformSetting, is_pending_notification, seconds,
}
use leakcheck_hub.Platform.Keys.{SettingKey, all_keys}
use leakcheck_hub.Platform.Store.{Cipher, Decoder, read_many}
use leakcheck_hub.Notifications.Messages.{
  MailMessage, Library, Sender, Values, value_of, bool_setting, int_setting, base_url, smtp_config,
  render_portal_message,
}

pub record Tables : Type 0 where
  pub users : List User
  pub notifications : List Notification
  pub settings : List PlatformSetting

abbrev pub is_sent : NotificationStatus → Bool
is_sent NotificationStatus.sent = true
is_sent _ = false

abbrev pub is_user : ℕ → User → Bool
is_user k u = u.id == k

-- The rows of the join that are pending.
pub is_due : List User → Notification → Bool
unfolding find
is_due users n = is_pending_notification n.status && is_some (find (is_user n.user_id) users)

-- `Notification.sent_at > current - cooldown`; a NULL instant is not later.
abbrev pub is_after : (now cooldown : ℕ) → Option ℕ → Bool
is_after now cooldown none = false
is_after now cooldown (some at) = ltb now (at + seconds cooldown)

abbrev pub is_recent : (now cooldown user_id : ℕ) → Notification → Bool
is_recent now cooldown user_id n =
    n.user_id == user_id && is_sent n.status && is_after now cooldown n.sent_at

-- The row of the notification, as the commit writes it.
abbrev pub put : Notification → Tables → Tables
put n db = record db { notifications = update (λ m. m.id == n.id) (λ _. n) db.notifications }

-- How the attempt ended, and what was handed to a sender.
pub record Attempt : Type 0 where
  pub failure : Option Text
  pub handed : List MailMessage

-- The transport that the settings name, unless the caller gave one.
resolved_sender : Library → Option Sender → Values → Outcome Sender
unfolding smtp_config
resolved_sender lib (some sender) values = ok sender
resolved_sender lib none values = smtp_config values >>= λ config. ok (lib.smtp config)

prepared : Library → Option Sender → User → Values → Outcome (Sender × MailMessage)
unfolding base_url resolved_sender
prepared lib sender u values = base_url values >>= λ url.
    resolved_sender lib sender values >>= λ resolved.
    ok (resolved, render_portal_message u.email url)

attempted : Outcome (Sender × MailMessage) → Attempt
attempted (err e) = record { failure = some (codes "NotificationConfigurationError"); handed = [] }
attempted (ok (sender, message)) = record { failure = sender message; handed = message ∷ [] }

finished : Notification → ℕ → Option Text → Notification
finished n now none = record n {
  status = NotificationStatus.sent;
  sent_at = some now;
  error = none;
}
finished n now (some name) = record n { status = NotificationStatus.failed; error = some name }

suppressed : Notification → Notification
suppressed n = record n {
  status = NotificationStatus.suppressed;
  error = some (codes "notification cooldown active");
}

-- What a call returns, writes and hands over.
abbrev pub Result : Type 0
Result = Outcome (Bool × Tables × List MailMessage)

module _ (lib : Library) (cipher : Cipher) (decoder : Decoder) (sender : Option Sender)
    (now : ℕ) where
  -- The `try` and the commit behind it.
  pub deliver : Notification → User → Values → Tables → Result
  unfolding prepared attempted finished
  deliver n u values db =
      let attempt = attempted (prepared lib sender u values) in
      ok (true, put (finished n now attempt.failure) db, attempt.handed)

  -- The part behind the test of the dry run.
  pub deliver_unless_recent : Notification → User → Values → Tables → Result
  unfolding suppressed deliver count
  deliver_unless_recent n u values db =
      int_setting (value_of SettingKey.notify_cooldown_seconds values) 86400 >>= λ cooldown.
      if not (cooldown == 0) && ltb 0 (count (is_recent now cooldown u.id) db.notifications)
      then ok (true, put (suppressed n) db, [])
      else deliver n u values db

  -- The part behind the query.
  pub deliver_row : Notification → User → Tables → Result
  unfolding deliver_unless_recent
  deliver_row n u db = read_many cipher decoder db.settings all_keys >>= λ values.
      bool_setting lib (value_of SettingKey.notify_dry_run values) true >>= λ dry.
      if dry
      then ok (true, put (record n { status = NotificationStatus.dry_run }) db, [])
      else deliver_unless_recent n u values db

  deliver_found : Tables → Option Notification → Result
  unfolding deliver_row find
  deliver_found db none = ok (false, db, [])
  deliver_found db (some n) = elim (find (is_user n.user_id) db.users) [
    | none ↦ ok (false, db, [])
    | some u ↦ deliver_row (record n { attempts = n.attempts + 1 }) u db
  ]

  -- `deliver_next`
  pub deliver_next : Tables → Result
  unfolding deliver_found is_due
  deliver_next db =
      deliver_found db
        (first_where (λ n. n.created_at) (λ n. n.id) (is_due db.users) db.notifications)
