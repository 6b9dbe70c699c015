-- ===== src/Client.antt =====
-- rubetek/client/controller: what the application knows of the controllers that it can reach.
mod Action
pub mod Controller
pub mod Packets
mod Table
mod Names
pub mod Unit
mod Tests
mod ServiceTests
pub mod CallbackService
pub mod ProjectManager
