-- ===== src/CommandLine.antt =====
-- bin/valetctl.go: the command line tool.
pub mod Strings
pub mod Tool
pub mod Groups
pub mod Rules
pub mod Reports
pub mod Main
