-- ===== src/Notifications/Messages.antt =====
-- app/notifications.py: the settings of notifications and the message. A sender is a function from a
-- message to the class of the exception that it raises, or none.
use leakcheck_hub.Prelude.{
  ◌>>=◌, ◌>>◌, ℕ, Bool, true, false, not, ◌&&◌, ◌||◌, Option, none, some, List, [], ◌∷◌, ◌++◌, Text,
  codes, leb, ◌==◌, text_eq, if◌then◌else◌, find, length, Outcome, ok, err, Error, raise_if,
}
use leakcheck_hub.Python.{ℤ, pos, negsuc, parse_int}
use leakcheck_hub.Platform.Keys.{SettingKey, key_value}

pub record MailMessage : Type 0 where
  pub recipient : Text
  pub subject : Text
  pub body : Text

pub record SmtpConfig : Type 0 where
  pub host : Text
  pub port : ℕ
  pub username : Option Text
  pub password : Option Text
  pub sender : Text
  pub security : Text

abbrev pub Sender : Type 0
Sender = MailMessage → Option Text

-- `smtp` is `SMTPMailSender(config).send`.
pub record Library : Type 0 where
  pub casefold : Text → Text
  pub smtp : SmtpConfig → Sender

abbrev pub Values : Type 0
Values = List (SettingKey × Text)

unfoldable pub value_or_none : Option (SettingKey × Text) → Option Text
value_or_none none = none
value_or_none (some p) = some p.1

-- `values.get(key)`
unfoldable pub value_of : SettingKey → Values → Option Text
unfolding value_or_none find
value_of key values = value_or_none (find (λ p. text_eq (key_value p.0) (key_value key)) values)

unfoldable pub is_on : Text → Bool
is_on s =
    text_eq s (codes "true")
    || text_eq s (codes "1")
    || text_eq s (codes "yes")
    || text_eq s (codes "on")

unfoldable pub is_off : Text → Bool
is_off s =
    text_eq s (codes "false")
    || text_eq s (codes "0")
    || text_eq s (codes "no")
    || text_eq s (codes "off")

-- `_bool_setting`
unfoldable pub bool_setting : Library → Option Text → (default : Bool) → Outcome Bool
unfolding is_on is_off
bool_setting lib none default = ok default
bool_setting lib (some value) default =
    if is_on (lib.casefold value)
    then ok true
    else if is_off (lib.casefold value)
    then ok false
    else err Error.configuration_error

unfoldable pub checked_cooldown : Option ℤ → Outcome ℕ
checked_cooldown none = err Error.value_error
checked_cooldown (some (negsuc n)) = err Error.configuration_error
checked_cooldown (some (pos n)) = if leb n 2592000 then ok n else err Error.configuration_error

-- `_int_setting`
unfoldable pub int_setting : Option Text → (default : ℕ) → Outcome ℕ
unfolding checked_cooldown parse_int
int_setting none default = checked_cooldown (some (pos default))
int_setting (some value) default = checked_cooldown (parse_int value)

unfoldable pub rstrip_slash : Text → Text
rstrip_slash [] = []
rstrip_slash (c ∷ s) = elim (rstrip_slash s) [
  | [] ↦ if c == b'/' then [] else c ∷ []
  | d ∷ r ↦ c ∷ d ∷ r
]

unfoldable pub starts_with : Text → Text → Bool
starts_with [] s = true
starts_with (c ∷ p) [] = false
starts_with (c ∷ p) (d ∷ s) = c == d && starts_with p s

-- `str.startswith("https://")`
abbrev pub is_https : Text → Bool
unfolding starts_with
is_https s = starts_with (codes "https://") s

unfoldable pub or_blank : Option Text → Text
or_blank none = []
or_blank (some s) = s

-- `_base_url`
unfoldable pub base_url : Values → Outcome Text
unfolding value_of or_blank rstrip_slash is_https
base_url values =
    let value = rstrip_slash (or_blank (value_of SettingKey.public_base_url values)) in
    if is_https value then ok value else err Error.configuration_error

-- A value, whose lack is a KeyError.
required : Option Text → Outcome Text
required none = err Error.configuration_error
required (some value) = ok value

port_of : Option ℤ → Outcome ℕ
port_of (some (pos n)) = if leb 1 n && leb n 65535 then ok n else err Error.configuration_error
port_of _ = err Error.configuration_error

or_starttls : Option Text → Text
or_starttls none = codes "starttls"
or_starttls (some s) = s

-- `_smtp_config`; every failure is a NotificationConfigurationError.
unfoldable pub smtp_config : Values → Outcome SmtpConfig
unfolding value_of required port_of or_starttls parse_int
smtp_config values = do
  host ← required (value_of SettingKey.smtp_host values)
  port_text ← required (value_of SettingKey.smtp_port values)
  port ← port_of (parse_int port_text)
  sender ← required (value_of SettingKey.smtp_from values)
  let security = or_starttls (value_of SettingKey.smtp_security values)
  raise_if
      (length host == 0
        || length sender == 0
        || not (text_eq security (codes "starttls") || text_eq security (codes "tls")))
      (Error.configuration_error)
  ok record {
    host = host;
    port = port;
    username = value_of SettingKey.smtp_username values;
    password = value_of SettingKey.smtp_password values;
    sender = sender;
    security = security;
  }

-- `render_portal_message`
unfoldable pub render_portal_message : (recipient base_url : Text) → MailMessage
render_portal_message recipient base_url = record {
  recipient = recipient;
  subject = codes "LeakCheck Hub: security action available";
  body =
      codes "LeakCheck Hub has security information requiring your review."
      ++ 10 ∷ 10 ∷ codes "Sign in to review and remediate it: "
      ++ base_url
      ++ codes "/portal"
      ++ 10 ∷ 10 ∷ codes "For your protection, exposure details are available only after sign-in.";
}
