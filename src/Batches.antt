-- ===== src/Batches.antt =====
-- app/batches.py: batches of scans and the queue that workers drain.
pub mod Tables
pub mod Sample
pub mod Like
pub mod Creation
pub mod Queue
pub mod Life
