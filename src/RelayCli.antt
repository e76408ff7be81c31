-- ===== src/RelayCli.antt =====
-- relay_cli.cpp: the command-line client of the relay.
pub mod Urls
pub mod Pins
