-- ===== src/Commands/Tests.antt =====
-- src/commands.c: commands on a console with two servers.
use tcp_proxy.Prelude.{ℕ, ◌≡◌, refl, true, false, none, some, List, [], ◌∷◌, arith, length}
use tcp_proxy.Prelude.Int.{ℤ, pos}
use tcp_proxy.Proxying.Admission.Channels.{Configured}
use tcp_proxy.Commands.{
  Console, module_not_unloaded, mode_safe, cmd_default_channel, cmd_fall_back_channel,
  cmd_unload_module, cmd_packet_analyzer_mode, cmd_packet_analyzer_mode_safe, channel_usage,
}
use tcp_proxy.Commands.Effects.{DefaultChannel, cmd_default_channel-DefaultChannel}

abbrev console : Console
console = record {
  config = record {
    servers = (49 ∷ [], pos 80) ∷ (50 ∷ [], pos 81) ∷ [];
    default_server = pos 0;
    on_failed_channel = pos 1;
    connection_threshold = pos 5;
    persist_threshold = pos 100;
    max_persistent_time = pos 86400;
    white_list = [];
  };
  logger = record { appender_list = []; priority = 5; have_initialized = false };
  analyzer = record {
    library = false;
    plugin = none;
    plugin_enable = false;
    auto_unload = false;
    safe_mode = false;
    reference_count = pos 0;
  };
}

console-Configured : Configured console.config
console-Configured = record {
  default_in_range = (omega arith, omega arith);
  fallback_in_range = (omega arith, omega arith);
}

-- A stand-in for `atoi`.
abbrev by_length : List ℕ → ℤ
by_length text = pos (length text)

cmd_default_channel-DefaultChannel_example :
    DefaultChannel console
      (cmd_default_channel by_length console (some (49 ∷ []))).0
      (pos 1)
      (cmd_default_channel by_length console (some (49 ∷ []))).1
cmd_default_channel-DefaultChannel_example =
    cmd_default_channel-DefaultChannel by_length console (49 ∷ []) console-Configured

nothing_to_unload : (cmd_unload_module true console).1 ≡ module_not_unloaded
unfolding cmd_unload_module
nothing_to_unload = refl

safe_then_asked : (cmd_packet_analyzer_mode (cmd_packet_analyzer_mode_safe console).0).1 ≡ mode_safe
unfolding cmd_packet_analyzer_mode cmd_packet_analyzer_mode_safe
safe_then_asked = refl

usage : (cmd_fall_back_channel by_length console none).1 ≡ channel_usage (pos 1)
unfolding cmd_fall_back_channel
usage = refl
