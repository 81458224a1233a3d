-- ===== src/Lib.antt =====
-- LeakCheck SOC Portal: what the portal keeps of leaked records, how it asks for them, and who may
-- see them.
--
-- The portal asks the LeakCheck service for records of a subject (app/leakcheck.py), ingests them as
-- findings (app/ingest.py, over app/normalization.py and app/finding_crypto.py), lets analysts close
-- and reopen findings (app/remediation.py), deletes old closed ones (app/retention.py), and sends
-- alerts through an outbox (app/alerts.py). Browsers hold opaque session tokens (app/auth/session.py)
-- and send signed double-submit tokens with unsafe requests (app/auth/csrf.py); super-admins log in
-- with a password and a one-time code (app/auth/local.py). A batch turns an organizational unit, a
-- domain or a selection into work that workers claim and finish (app/batches.py). Users are told by
-- mail that there is something to see (app/notifications.py), and schedules open batches and
-- digests (app/scheduling.py). Settings are stored encrypted
-- (app/platform_settings.py) under a data key that can be rotated (app/reencrypt.py). All state is
-- in PostgreSQL tables (app/models.py).
--
-- Which file models which part:
--   Prelude, Unicode, Python   shared helpers: tests, tables as lists with what SELECT, UPDATE and
--                              DELETE do to them, calls that raise, UTF-8, `strip` and `int`
--   Models                     app/models.py: a record for each table's row, a data type for each
--                              enumeration, and the values of the `json` module
--   Auth/Session               app/auth/session.py: SessionManager.issue, verify, revoke, revoke_all
--                              on the tables of sessions and users; Requests has the step function
--                              over sequences of calls, Deadlines and Revocation the theorems
--   Auth/Csrf                  app/auth/csrf.py: CSRFProtector.issue and valid, CSRFMiddleware
--   Auth/Local                 app/auth/local.py: passwords and normal forms; Totp has the one-time
--                              codes, Provisioning create_superadmin, Logins LocalAuthenticator;
--                              Guards and Admission lead to whom a login lets in, Writes,
--                              LimitRows, Elsewhere and Blocking to the block of an address
--   Findings/Remediation       app/remediation.py: remediate_finding, unremediate_finding and the
--                              event history
--   Findings/Retention         app/retention.py: load_policy, RetentionPolicy.cutoff and
--                              purge_expired_findings with the foreign keys of findings and events
--   Alerts                     app/alerts.py: enqueue_alert and dispatch_next_alert; a sink is a
--                              function from a payload to a failure or none
--   LeakCheck/Records          app/leakcheck.py: the records and _parse_page
--   LeakCheck/Pacing           app/leakcheck.py: TokenBucket.acquire, one round under its lock; how
--                              long a caller sleeps before the next one is a quotient of floats
--                              and is not modelled, only the instants of the rounds are
--   LeakCheck/Transport        app/leakcheck.py: _send, the circuit breaker and _request_page; what
--                              the network does, the limiter's sleeps and the clock's instants are
--                              arguments
--   LeakCheck/Query            app/leakcheck.py: query and _query_domain
--   Ingest/Normalization       app/normalization.py: normalize_email, normalize_domain,
--                              normalize_phone and the optional forms
--   Ingest/Password            app/finding_crypto.py: protect_password, mask_password,
--                              password_charset
--   Ingest/Fingerprint         app/ingest.py: normalize_source, finding_fingerprint, _identity_key,
--                              _sanitized_raw
--   Ingest/Upserts             app/ingest.py: resolve_source, upsert_finding, link_releak, add_event
--   Ingest/Records             app/ingest.py: build_finding_draft, find_remediated_predecessor,
--                              ingest_records; Known, Recorded and Again lead to the theorem on
--                              repeated ingests
--   Batches                    app/batches.py: Like has the patterns of targets, Creation
--                              create_batch, Queue claim_next and finish_work; Life has the steps
--                              of batches and workers as a relation on worlds
--   Notifications              app/notifications.py: Outbox has enqueue_notification, Messages the
--                              settings and the message, Digest the daily digest, Delivery
--                              deliver_next
--   Scheduling                 app/scheduling.py: next_fire_time and one tick of
--                              dispatch_due_schedules over batches and digests
--   Platform                   app/platform_settings.py: Keys has SettingKey, Store
--                              PlatformSettingsStore; app/reencrypt.py: Rotation has rotate and _run
--
-- Conventions. A table is a list of rows in the order of insertion, an UPDATE or a locked row that is
-- assigned to is a rewriting of the rows of a test. An instant is a number of microseconds and an
-- identifier is a number; a text is a list of code points and bytes are a list of numbers. What the
-- code draws (identifiers, nonces, tokens) and the clock's instants are arguments, so every theorem
-- holds for all of them. hashlib, hmac, unicodedata, idna, the cryptography package and the parser of
-- `json` are fields of the records named Library, or arguments; so are Argon2, AES-GCM, SMTP and the
-- operators LIKE and ILIKE, of which a few theorems assume what is documented of them.
--
-- Bounds and fuel. The loops of the code are bounded by counts that it is configured with: the
-- retries of a request and the pages of a domain query are structural recursion on those counts, so
-- no extra fuel is spent. The token bucket's waiting loop is modelled a round at a time, as its
-- rounds are what the lock orders. The decimal digits of a number take one round more than the
-- number, each of which divides by ten.
--
-- What is not modelled: HTTP routing and HTML, cookies' attributes, logging, migrations, the
-- concurrency of transactions beyond their row locks, which order the calls, and the parts of the
-- portal that no file above names (Google logins and authorization, scans, the
-- worker, the audit log).
pub mod Prelude
pub mod Unicode
pub mod Notifications
pub mod Scheduling
pub mod Platform
pub mod Python
pub mod Models
pub mod Findings
pub mod Alerts
pub mod LeakCheck
pub mod Ingest
pub mod Auth
pub mod Batches
