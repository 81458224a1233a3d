-- ===== src/Models.antt =====
-- The rows of the portal's tables (app/models.py). Columns keep their names; an instant is a number
-- of microseconds and an identifier is a number. Relationships between classes are left out, and
-- so are column defaults, which the code that inserts a row spells out.
mod Enums
mod Values
mod Accounts
mod Exposure
mod Work
mod Administration
pub use Enums.*
unfoldable pub use Values.*
pub use Accounts.*
pub use Exposure.*
pub use Administration.*
pub use Work.*
