-- ===== src/Models/Values.antt =====
-- The values of the `json` module: what a vendor body decodes to, and what JSONB columns hold. A
-- number with a fraction or an exponent is `float`, known by its text.
use leakcheck_hub.Prelude.{ℕ, Bool, Option, none, some, Text, text_eq, if◌then◌else◌}

-- An object keeps its keys in order. `negative n` is the integer -(n + 1).
mutual
  pub data Json : Type 0 where
    null : Json
    bool : Bool → Json
    number : ℕ → Json
    negative : ℕ → Json
    float : Text → Json
    string : Text → Json
    array : Items → Json
    object : Fields → Json

  pub data Items : Type 0 where
    nil : Items
    cons : Json → Items → Items

  pub data Fields : Type 0 where
    end : Fields
    field : Text → Json → Fields → Fields

-- `value.get(key)` on a decoded object.
unfoldable pub get : Text → Fields → Option Json
get k end = none
get k (field j v r) = let rest = get k r in if text_eq j k then some v else rest
