-- ===== src/Notifications.antt =====
-- app/notifications.py: the outbox of mails. What SMTP does with a message, the digest and the texts
-- of identifiers are the libraries'; a message that is handed to a sender is a result of the call.
pub mod Outbox
pub mod Digest
pub mod Messages
pub mod Delivery
