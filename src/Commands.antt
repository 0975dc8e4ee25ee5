-- ===== src/Commands.antt =====
-- src/commands.c: the commands of the operator that change the level of the log, the channels and the
-- packet analyzer. A command answers 1 to go on; what it prints is a value.
pub mod Effects
mod Tests
use tcp_proxy.Prelude.{
  ℕ, zero, suc, ◌+◌, ◌≡◌, Bool, true, false, ◌&&◌, not, Option, none, some, List, [], ◌∷◌, arith,
  leb, ◌==◌, if◌then◌else◌,
}
use tcp_proxy.Prelude.Int.{ℤ, pos, eqb_ℤ}
use tcp_proxy.Logger.{
  Logger, log_error, log_notice, log_info, log_debug, log_trace, con_set_priority,
  logger_get_priority_name,
}
use tcp_proxy.Analyzer.{
  Analyzer, PluginSettings, load_packet_analyzer, module_unload, set_enable, set_safe_mode,
}
use tcp_proxy.Proxying.Admission.{Config, set_default_channel, set_fallback_channel}

-- The components that the commands reach.
pub record Console : Type 0 where
  pub config : Config
  pub logger : Logger
  pub analyzer : Analyzer

-- What a command prints.
pub data Output : Type 0 where
  logging_level : List ℕ → Output
  channel_usage : ℤ → Output
  channel_set : ℤ → Output
  channel_not_set : ℤ → Output
  module_loaded : Output
  module_not_on_boot : Output
  module_not_loaded : Output
  module_name_required : Output
  unknown_error : Output
  module_unloaded : Output
  module_not_unloaded : Output
  mode_safe : Output
  mode_fast : Output
  analyzer_enabled : Output
  analyzer_not_enabled : Output
  analyzer_disabled : Output
  analyzer_not_disabled : Output

unfoldable pub cmd_set_log_level : Console → ℕ → Console × Output
cmd_set_log_level s priority = (
  record s { logger = (con_set_priority s.logger priority).0 },
  logging_level (logger_get_priority_name priority),
)

unfoldable pub cmd_logging_trace : Console → Console × Output
unfolding cmd_set_log_level
cmd_logging_trace s = cmd_set_log_level s log_trace

unfoldable pub cmd_logging_debug : Console → Console × Output
unfolding cmd_set_log_level
cmd_logging_debug s = cmd_set_log_level s log_debug

unfoldable pub cmd_logging_info : Console → Console × Output
unfolding cmd_set_log_level
cmd_logging_info s = cmd_set_log_level s log_info

unfoldable pub cmd_logging_notice : Console → Console × Output
unfolding cmd_set_log_level
cmd_logging_notice s = cmd_set_log_level s log_notice

unfoldable pub cmd_logging_warning : Console → Console × Output
unfolding cmd_set_log_level
cmd_logging_warning s = cmd_set_log_level s log_notice

unfoldable pub cmd_logging_error : Console → Console × Output
unfolding cmd_set_log_level
cmd_logging_error s = cmd_set_log_level s log_error

-- `atoi` is the function of the C library.
unfoldable pub cmd_fall_back_channel : (List ℕ → ℤ) → Console → Option (List ℕ) → Console × Output
unfolding set_fallback_channel
cmd_fall_back_channel atoi s args = elim args [
  | none ↦ (s, channel_usage s.config.on_failed_channel)
  | some text ↦
      let channel = atoi text in
      let (config, answer) = set_fallback_channel s.config channel in
      (
        record s { config = config },
        if eqb_ℤ answer channel then channel_set channel else channel_not_set channel,
      )
]

unfoldable pub cmd_default_channel : (List ℕ → ℤ) → Console → Option (List ℕ) → Console × Output
unfolding set_default_channel
cmd_default_channel atoi s args = elim args [
  | none ↦ (s, channel_usage s.config.default_server)
  | some text ↦
      let channel = atoi text in
      let (config, answer) = set_default_channel s.config channel in
      (
        record s { config = config },
        if eqb_ℤ answer channel then channel_set channel else channel_not_set channel,
      )
]

-- The `switch` of `cmd_load_module`.
unfoldable pub load_answer : ℕ → Output
load_answer zero = module_loaded
load_answer (suc zero) = module_not_on_boot
load_answer (suc (suc zero)) = module_not_loaded
load_answer (suc (suc (suc zero))) = module_name_required
load_answer (suc (suc (suc (suc n)))) = unknown_error

-- The argument names a file, as for `load_packet_analyzer`.
unfoldable pub cmd_load_module :
    PluginSettings → (ℕ → Bool) → (ℕ → Option ℕ) → Console → Option ℕ → Console × Output
unfolding load_packet_analyzer load_answer
cmd_load_module settings opened symbol s args =
    let (analyzer, answer) = load_packet_analyzer settings opened symbol s.analyzer false args in
    (record s { analyzer = analyzer }, load_answer answer)

unfoldable pub cmd_unload_module : Bool → Console → Console × Output
unfolding module_unload
cmd_unload_module closed s =
    let (analyzer, ok) = module_unload s.analyzer closed in
    (record s { analyzer = analyzer }, if ok then module_unloaded else module_not_unloaded)

unfoldable pub cmd_packet_analyzer_mode_safe : Console → Console × Output
unfolding set_safe_mode
cmd_packet_analyzer_mode_safe s = (record s { analyzer = set_safe_mode s.analyzer true }, mode_safe)

unfoldable pub cmd_packet_analyzer_mode_fast : Console → Console × Output
unfolding set_safe_mode
cmd_packet_analyzer_mode_fast s =
    (record s { analyzer = set_safe_mode s.analyzer false }, mode_fast)

unfoldable pub cmd_packet_analyzer_mode : Console → Console × Output
cmd_packet_analyzer_mode s = (s, if s.analyzer.safe_mode then mode_safe else mode_fast)

unfoldable pub cmd_enable_packet_analyzer : Console → Console × Output
unfolding set_enable
cmd_enable_packet_analyzer s =
    let (analyzer, on) = set_enable s.analyzer true in
    (record s { analyzer = analyzer }, if on then analyzer_enabled else analyzer_not_enabled)

unfoldable pub cmd_disable_packet_analyzer : Console → Console × Output
unfolding set_enable
cmd_disable_packet_analyzer s =
    let (analyzer, on) = set_enable s.analyzer false in
    (record s { analyzer = analyzer }, if on then analyzer_disabled else analyzer_not_disabled)
