-- ===== src/Bot.antt =====
-- The conversations of bot/handlers/reseller.py: what a reseller's message or button press does to
-- the state of the dialog (aiogram's FSMContext), to the database and to the panels.
pub mod Said
pub mod Chat
pub mod Create
pub mod Confirm
pub mod Browse
pub mod Services
pub mod Expiry
pub mod Traffic
pub mod Edit
pub mod Moves
pub mod Routing
