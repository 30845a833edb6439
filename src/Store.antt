-- ===== src/Store.antt =====
-- store: the parts of the controller's store on which the interface's texts and tests rest.
pub mod Slot
