-- ===== src/Notifications/Delivery/Guards.antt =====
-- app/notifications.py: what holds whenever a message is handed to a sender.
use leakcheck_hub.Prelude.{
  ℕ, true, false, not, ◌&&◌, Option, List, [], Text, ltb, ◌==◌, count, ok, ◌≡◌,
}
use leakcheck_hub.Models.{User}
use leakcheck_hub.Platform.Keys.{SettingKey, all_keys}
use leakcheck_hub.Platform.Store.{Cipher, Decoder, read_many}
use leakcheck_hub.Notifications.Messages.{
  MailMessage, Library, Sender, Values, value_of, bool_setting, int_setting, base_url,
  render_portal_message,
}
use leakcheck_hub.Notifications.Delivery.{Tables, is_recent}

-- The message is the portal's, and there is no other.
pub record IsPortalMessage (u : User) (values : Values) (m : MailMessage) (ms : List MailMessage)
    : Type 0 where
  pub url : Text
  pub secure : base_url values ≡ ok url
  pub message : m ≡ render_portal_message u.email url
  pub single : ms ≡ []

module _ (lib : Library) (cipher : Cipher) (decoder : Decoder) (sender : Option Sender)
    (now : ℕ) where
  -- What the settings and the outbox say of a message that is handed over.
  pub record IsAllowed (u : User) (m : MailMessage) (ms : List MailMessage) (db : Tables)
      : Type 0 where
    pub values : Values
    pub stored : read_many cipher decoder db.settings all_keys ≡ ok values
    pub live : bool_setting lib (value_of SettingKey.notify_dry_run values) true ≡ ok false
    pub cooldown : ℕ
    pub configured :
        int_setting (value_of SettingKey.notify_cooldown_seconds values) 86400 ≡ ok cooldown
    pub quiet :
        (not (cooldown == 0) && ltb 0 (count (is_recent now cooldown u.id) db.notifications))
        ≡ false
    pub portal : IsPortalMessage u values m ms
