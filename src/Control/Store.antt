-- ===== src/Control/Store.antt =====
-- `ControlStore` of src/ingestion_framework/control/control_store.py. A statement is modelled by
-- what its text tells the engine to do with the rows of the table that it names.
pub mod Attempts
mod Clock
mod Tasks
mod Runs
mod Registry
unfoldable pub use Clock.*
unfoldable pub use Tasks.*
unfoldable pub use Runs.*
unfoldable pub use Registry.*
