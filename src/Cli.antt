-- ===== src/Cli.antt =====
-- etcminer/main.cpp: the command line, and the program that it starts.
pub mod Options
pub mod Settings
pub mod Devices
pub mod Run
