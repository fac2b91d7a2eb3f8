-- ===== src/Kernel.antt =====
-- What the application takes from outside its own sources, and a board that meets the assumptions.
mod Interface
mod Concrete
pub use Interface.*
unfoldable pub use Concrete.*
