-- ===== src/Logger/Levels.antt =====
-- src/common_logger.c: levels and their names.
use tcp_proxy.Prelude.{ℕ, zero, suc, ◌≤◌, ◌≡◌, refl, arith}
use tcp_proxy.Logger.{log_fatal, log_trace, logger_get_priority_by_name, logger_get_priority_name}

-- The priority of the name of each of the levels from fatal to trace is that level.
logger_get_priority_by_name-logger_get_priority_name :
    (p : ℕ)
    → log_fatal ≤ p
    → p ≤ log_trace
    → logger_get_priority_by_name (logger_get_priority_name p) ≡ p
unfolding logger_get_priority_by_name logger_get_priority_name
logger_get_priority_by_name-logger_get_priority_name zero lo hi = absurd (omega arith)
logger_get_priority_by_name-logger_get_priority_name (suc zero) lo hi = refl
logger_get_priority_by_name-logger_get_priority_name (suc (suc zero)) lo hi = refl
logger_get_priority_by_name-logger_get_priority_name (suc (suc (suc zero))) lo hi = refl
logger_get_priority_by_name-logger_get_priority_name (suc (suc (suc (suc zero)))) lo hi = refl
logger_get_priority_by_name-logger_get_priority_name (suc (suc (suc (suc (suc zero))))) lo hi = refl
logger_get_priority_by_name-logger_get_priority_name (suc (suc (suc (suc (suc (suc zero)))))) lo
      hi =
    refl
logger_get_priority_by_name-logger_get_priority_name (suc (suc (suc (suc (suc (suc (suc zero)))))))
      lo hi =
    refl
logger_get_priority_by_name-logger_get_priority_name
      (suc (suc (suc (suc (suc (suc (suc (suc p)))))))) lo hi =
    absurd (omega arith)
