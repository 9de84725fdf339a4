-- ===== src/FileServer.antt =====
-- Project4: the multi-threaded file server.
pub mod Params
pub mod Layout
pub mod Text
pub mod State
pub mod Directory
pub mod Common
pub mod Handlers
pub mod Requests
pub mod Responses
pub mod Init
mod Examples
