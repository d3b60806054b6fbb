-- ===== src/Storage.antt =====
-- The storage that the pallet stands on: its interface, and a map that meets it.
pub mod Entries
pub mod Interface
pub mod Listing
pub mod Assoc
pub use Interface.*
pub use Assoc.*
