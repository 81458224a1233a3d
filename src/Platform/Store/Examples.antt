-- ===== src/Platform/Store/Examples.antt =====
-- Two writes to an empty table: a host, and a secret that is left blank the second time.
use leakcheck_hub.Prelude.{Option, none, some, List, [], ◌∷◌, Text, codes, ◌≡◌}
use leakcheck_hub.Unicode.Decoding.{decode, decode-utf8}
use leakcheck_hub.Platform.Keys.{SettingKey}
use leakcheck_hub.Platform.Store.{Decoder, read, write_many}
use leakcheck_hub.Platform.Store.Refinement.{assign_many, write_many-refines}
use leakcheck_hub.Platform.Sample.{shown_cipher, shown-IsLawful}

abbrev utf8_decoder : Decoder
utf8_decoder = record { decode = decode; decode-utf8 = decode-utf8 }

abbrev entries : List (SettingKey × Option Text)
entries =
    (SettingKey.smtp_host, some (codes "mail.x.test"))
    ∷ (SettingKey.smtp_password, some (codes "s3cret"))
    ∷ (SettingKey.smtp_password, some [])
    ∷ (SettingKey.soc_email, none)
    ∷ []

write_many-refines_example :
    read
      (shown_cipher (codes "k"))
      utf8_decoder
      (write_many (shown_cipher (codes "k")) 1 100 (λ n. n ∷ []) entries 0 [])
      SettingKey.smtp_password
    ≡ assign_many entries (read (shown_cipher (codes "k")) utf8_decoder []) SettingKey.smtp_password
write_many-refines_example =
    write_many-refines (shown_cipher (codes "k")) (shown-IsLawful (codes "k")) utf8_decoder 1 100
      (λ n. n ∷ []) entries 0 [] SettingKey.smtp_password
