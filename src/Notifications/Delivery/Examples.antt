-- ===== src/Notifications/Delivery/Examples.antt =====
-- One pending notification, with the dry run turned off, and the same outbox without settings.
use leakcheck_hub.Prelude.{
  true, none, some, [], ◌∷◌, Text, codes, find, update, select, first_where, first_row, earlier, ok,
  ◌≡◌, refl,
}
use leakcheck_hub.Models.{
  User, UserRole, UserSource, Notification, NotificationStatus, PlatformSetting,
}
use leakcheck_hub.Unicode.Decoding.{decode, decode-utf8}
use leakcheck_hub.Platform.Store.{Decoder, read_row, read, kept, read_many}
use leakcheck_hub.Platform.Sample.{shown_cipher}
use leakcheck_hub.Notifications.Messages.{
  MailMessage, Library, Sender, value_or_none, value_of, bool_setting, render_portal_message,
}
use leakcheck_hub.Notifications.Delivery.{
  Tables, is_due, put, deliver_row, deliver_found, deliver_next,
}

abbrev reader : User
reader = record {
  id = 7;
  email = codes "a@x.test";
  google_sub = none;
  display_name = codes "A";
  ou_path = none;
  role = UserRole.user;
  is_active = true;
  source = UserSource.google;
  created_at = 0;
  last_login_at = none;
}

abbrev waiting : Notification
waiting = record {
  id = 1;
  user_id = 7;
  template = codes "new_findings";
  finding_ids = codes "f" ∷ [];
  status = NotificationStatus.pending;
  dedupe_key = codes "d";
  attempts = 0;
  error = none;
  created_at = 10;
  sent_at = none;
}

-- A row under the key of the sample cipher.
abbrev stored : Text → Text → PlatformSetting
stored key value = record {
  key = key;
  ciphertext = (shown_cipher (codes "k")).encrypt [] value [];
  nonce = [];
  schema_version = 1;
  updated_at = 0;
  updated_by = 1;
}

abbrev live_db : Tables
live_db = record {
  users = reader ∷ [];
  notifications = waiting ∷ [];
  settings =
      stored (codes "notify_dry_run") (codes "false")
      ∷ stored (codes "public_base_url") (codes "https://x.test/")
      ∷ [];
}

abbrev dry_db : Tables
dry_db = record (live_db) { settings = [] }

abbrev utf8_decoder : Decoder
utf8_decoder = record { decode = decode; decode-utf8 = decode-utf8 }

abbrev lib : Library
lib = record { casefold = λ s. s; smtp = λ config m. some (codes "OSError") }

abbrev accepts : Sender
accepts m = none

abbrev message : MailMessage
message = render_portal_message (codes "a@x.test") (codes "https://x.test")

abbrev sent_db : Tables
sent_db =
    put (record (waiting) { attempts = 1; status = NotificationStatus.sent; sent_at = some 50 })
      live_db

-- Without any setting nothing is handed over.
sample_dry_run :
    deliver_next lib (shown_cipher (codes "k")) utf8_decoder (some accepts) 50 dry_db
    ≡ ok (
      true,
      put (record (waiting) { attempts = 1; status = NotificationStatus.dry_run }) dry_db,
      [],
    )
unfolding deliver_next deliver_found deliver_row is_due value_or_none value_of bool_setting
    read_many read kept read_row find select first_where first_row earlier update
sample_dry_run = refl
