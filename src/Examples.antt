-- ===== src/Examples.antt =====
-- Runs of the models at concrete inputs, on small stand-ins for the foreign code.
pub mod Foreign
pub mod Keys
pub mod Wire
pub mod Gui
pub mod Desktop
pub mod Talk
pub mod Cli
