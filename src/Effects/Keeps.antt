-- ===== src/Effects/Keeps.antt =====
-- Rely and guarantee. Code that meets its specification keeps a predicate `P` of the table of
-- sockets, if other threads keep it while this one yields; where it returns a value it ensures
-- `Q` of that value, and where it ends otherwise it ensures `E`.
mod Rules
mod Calls
pub use Rules.*
pub use Calls.*
