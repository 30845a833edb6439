-- ===== src/Forms.antt =====
-- webui/src/app/ui/formCreation.tsx and formDialog.tsx: the forms that create things.
pub mod Data
pub mod Creation
pub mod Migrate
pub mod Dialog
pub mod Laws
pub mod Source
pub mod Submitting
mod Tests
