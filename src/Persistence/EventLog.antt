-- ===== src/Persistence/EventLog.antt =====
-- server/src/adapter/persistence/in_memory_event_log.cpp
use monash_fit1045_hd_projec.Base.{List, [], ◌∷◌, ◌++◌, Text}

pub record EventLog : Type 0 where
  pub logged : List (Text × Text)

unfoldable pub log : Text → Text → EventLog → EventLog
log event_type details l = record { logged = l.logged ++ ((event_type, details) ∷ []) }

unfoldable pub entries : EventLog → List (Text × Text)
entries l = l.logged
