-- ===== src/Shared/Logging.antt =====
-- shared/include/bcmd/shared/logging.hpp, and the levels that both programs choose.
use monash_fit1045_hd_projec.Base.{Bool, if◌then◌else◌}

pub data LogLevel : Type 0 where
  trace debug info warn error critical off : LogLevel

-- quiet before verbose, the same in both programs
unfoldable pub select_log_level : Bool → Bool → LogLevel
select_log_level quiet verbose = if quiet then warn else if verbose then debug else info
