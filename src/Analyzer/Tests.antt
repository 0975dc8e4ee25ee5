-- ===== src/Analyzer/Tests.antt =====
-- src/packet_analyzer.c: a plugin that is loaded, enabled, used by one connection, and unloaded with
-- its release.
use tcp_proxy.Prelude.{refl, true, false, none, some, arith}
use tcp_proxy.Prelude.Int.{pos}
use tcp_proxy.Analyzer.{
  Analyzer, is_loaded, module_loader, module_unload, set_enable, analyzer_allocate,
}
use tcp_proxy.Analyzer.Handles.{
  load, enable, allocated, unload, Steps, none_left, then_, IsCounted, Steps-IsCounted,
}

abbrev at_start : Analyzer
at_start = record {
  library = false;
  plugin = none;
  plugin_enable = false;
  auto_unload = false;
  safe_mode = false;
  reference_count = pos 0;
}

at_start-IsCounted : IsCounted at_start 0
at_start-IsCounted = record { counted = refl; kept = λ held. absurd (ground (arith, held)) }

abbrev loaded : Analyzer
loaded = (module_loader at_start true (some 9)).0

abbrev enabled : Analyzer
enabled = (set_enable loaded true).0

abbrev used : Analyzer
used = (analyzer_allocate enabled (some 5)).0

-- To unload the plugin while it is used only notes the wish.
abbrev waiting : Analyzer
waiting = (module_unload used true).0

to_waiting : Steps at_start 0 waiting 1
unfolding module_loader set_enable analyzer_allocate is_loaded
to_waiting = then_ at_start loaded waiting 0 0 1 (load at_start 0 true (some 9)) (
    then_ loaded enabled waiting 0 0 1 (enable loaded 0 true) (
      then_ enabled used waiting 0 1 1 (allocated enabled 0 5 (some 5) refl)
        (then_ used waiting waiting 1 1 1 (unload used 1 true) (none_left waiting 1))))

Steps-IsCounted_example : IsCounted waiting 1
Steps-IsCounted_example = Steps-IsCounted at_start waiting 0 1 at_start-IsCounted to_waiting
