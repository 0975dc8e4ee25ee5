-- ===== src/Logger.antt =====
-- src/common_logger.c: the list of appenders, the filter by priority, and the names of the levels.
-- What an appender writes is a call in a list; file, line and arguments go on unchanged and are left
-- out.
pub mod Delivery
pub mod Levels
mod Tests
use tcp_proxy.Prelude.{
  ℕ, zero, suc, ◌+◌, ◌≡◌, Bool, true, false, ◌&&◌, not, Option, none, some, List, [], ◌∷◌, ◌++◌,
  map, arith, ltb, leb, ◌==◌, if◌then◌else◌,
}

-- `enum log_priority_t`, as its numbers.
abbrev pub log_fatal : ℕ
log_fatal = 1

abbrev pub log_error : ℕ
log_error = 2

abbrev pub log_warning : ℕ
log_warning = 3

abbrev pub log_notice : ℕ
log_notice = 4

abbrev pub log_info : ℕ
log_info = 5

abbrev pub log_debug : ℕ
log_debug = 6

abbrev pub log_trace : ℕ
log_trace = 7

-- The statics of the file; an appender is an identity.
pub record Logger : Type 0 where
  pub appender_list : List ℕ
  pub priority : ℕ
  pub have_initialized : Bool

-- A call of the function `write` of an appender.
pub record Written : Type 0 where
  pub appender : ℕ
  pub priority : ℕ
  pub text : List ℕ

-- `allocated` tells whether `malloc` succeeds.
unfoldable pub con_add_appender : Logger → Bool → ℕ → Logger
con_add_appender l allocated appender =
    if allocated
    then record l { appender_list = appender ∷ l.appender_list; have_initialized = true }
    else l

-- `while (appender_list != NULL)`
unfoldable pub clear_list : List ℕ → List ℕ
clear_list [] = []
clear_list (a ∷ as') = clear_list as'

unfoldable pub con_clear_appender : Logger → Logger
unfolding clear_list
con_clear_appender l = record l { appender_list = clear_list l.appender_list }

-- The loop of `con_dolog` over the appenders.
unfoldable pub write_all : ℕ → List ℕ → List ℕ → List Written
write_all p text [] = []
write_all p text (a ∷ as') =
    (record { appender = a; priority = p; text = text }) ∷ write_all p text as'

-- `excalibur_stderr_appender` is a parameter, as is the answer of `malloc` when it is added.
unfoldable pub con_dolog : ℕ → Bool → Logger → ℕ → List ℕ → Logger × List Written
unfolding con_add_appender write_all
con_dolog stderr_appender allocated l p text =
    let ready =
      if l.have_initialized
      then l
      else con_add_appender (record l { have_initialized = true }) allocated stderr_appender in
    if ltb l.priority p then (l, []) else (ready, write_all p text ready.appender_list)

unfoldable pub con_set_priority : Logger → ℕ → Logger × ℕ
con_set_priority l p = (record l { priority = p }, l.priority)

unfoldable pub con_is_enable : Logger → ℕ → Bool
con_is_enable l p = leb p l.priority

-- `logLevels`
abbrev pub log_levels : List (ℕ × List ℕ)
log_levels =
    (log_fatal, 102 ∷ 97 ∷ 116 ∷ 97 ∷ 108 ∷ [])
    ∷ (log_error, 101 ∷ 114 ∷ 114 ∷ 111 ∷ 114 ∷ [])
    ∷ (log_warning, 119 ∷ 97 ∷ 114 ∷ 110 ∷ 105 ∷ 110 ∷ 103 ∷ [])
    ∷ (log_notice, 110 ∷ 111 ∷ 116 ∷ 105 ∷ 99 ∷ 101 ∷ [])
    ∷ (log_info, 105 ∷ 110 ∷ 102 ∷ 111 ∷ [])
    ∷ (log_debug, 100 ∷ 101 ∷ 98 ∷ 117 ∷ 103 ∷ [])
    ∷ (log_trace, 116 ∷ 114 ∷ 97 ∷ 99 ∷ 101 ∷ [])
    ∷ []

-- A character as `strcasecmp` compares it.
unfoldable pub folded : ℕ → ℕ
folded c = if leb 65 c && leb c 90 then c + 32 else c

-- `strcasecmp (a, b) == 0`
unfoldable pub same_name : List ℕ → List ℕ → Bool
unfolding folded
same_name [] [] = true
same_name [] (b ∷ bs) = false
same_name (a ∷ as') [] = false
same_name (a ∷ as') (b ∷ bs) = folded a == folded b && same_name as' bs

unfoldable pub priority_in : List (ℕ × List ℕ) → List ℕ → ℕ
unfolding same_name
priority_in [] name = log_notice
priority_in ((p, level) ∷ levels) name = if same_name name level then p else priority_in levels name

unfoldable pub logger_get_priority_by_name : List ℕ → ℕ
unfolding priority_in
logger_get_priority_by_name = priority_in log_levels

unfoldable pub name_in : List (ℕ × List ℕ) → ℕ → List ℕ
name_in [] p = []
name_in ((q, level) ∷ levels) p = if q == p then level else name_in levels p

unfoldable pub logger_get_priority_name : ℕ → List ℕ
unfolding name_in
logger_get_priority_name = name_in log_levels
