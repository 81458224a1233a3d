-- ===== src/Findings/Tables.antt =====
-- The tables that a finding lives in (app/models.py), and their keys.
use leakcheck_hub.Prelude.{ℕ, Bool, true, false, List, [], ◌∷◌, mem, ◌==◌, ◌≡◌, All}
use leakcheck_hub.Models.{Finding, FindingEvent, BreachSource}

pub record Tables : Type 0 where
  pub sources : List BreachSource
  pub findings : List Finding
  pub events : List FindingEvent

abbrev pub has_id : ℕ → Finding → Bool
has_id k f = f.id == k

abbrev pub ids : List Finding → List ℕ
ids [] = []
ids (f ∷ fs) = f.id ∷ ids fs

-- The primary key of findings: no identifier twice.
abbrev pub IsKeyed : List Finding → Type 0
IsKeyed [] = Unit
IsKeyed (f ∷ fs) = (mem f.id (ids fs) ≡ false) × IsKeyed fs

-- The foreign key of events: each names a finding that is stored.
abbrev pub IsLinked : Tables → Type 0
IsLinked db = All (λ e. mem e.finding_id (ids db.findings) ≡ true) db.events
