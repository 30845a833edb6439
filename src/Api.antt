-- ===== src/Api.antt =====
-- webui/src/app/lib/api.ts: the calls that the web interface makes to the controller.
pub mod Response
pub mod Calls
pub mod Laws
pub mod Urls
pub mod Reads
pub mod Samples
mod Tests
