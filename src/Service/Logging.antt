-- ===== src/Service/Logging.antt =====
-- internal/service/logging.go: the level of the log, by the variable LOG_LEVEL.
use ingestkit.Prelude.{Bytes, bytes_eq, codes, if◌then◌else◌}

pub data Level : Type 0 where
  debug info warn error : Level

unfoldable pub configure_logging : Bytes → Level
configure_logging variable =
    if bytes_eq variable (codes "debug")
    then debug
    else if bytes_eq variable (codes "warn")
    then warn
    else if bytes_eq variable (codes "error")
    then error
    else info
