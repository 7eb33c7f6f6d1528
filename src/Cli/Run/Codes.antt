-- ===== src/Cli/Run/Codes.antt =====
-- The codes that main of etcminer/main.cpp ends with.
use etcminer.Cli.Options.{Options}
