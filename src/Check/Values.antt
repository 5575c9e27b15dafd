-- ===== src/Check/Values.antt =====
-- The values of the enumerations and macros that the checks of parameters name.
mod Kinds
mod Modes
mod Sizes
pub use security_huks.Check.Values.Kinds.*
pub use security_huks.Check.Values.Modes.*
pub use security_huks.Check.Values.Sizes.*
