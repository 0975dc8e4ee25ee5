-- ===== src/Analyzer.antt =====
-- src/packet_analyzer.c: the plugin that sees the packets: when it is loaded, enabled, in use and
-- unloaded. The answers of `dlopen`, `dlsym`, `dlclose` and of the plugin are arguments.
pub mod Handles
mod Tests
use tcp_proxy.Prelude.{
  ℕ, zero, suc, ◌+◌, ◌≡◌, Bool, true, false, ◌&&◌, not, Option, none, some, List, [], ◌∷◌, arith,
  leb, ◌==◌, if◌then◌else◌,
}
use tcp_proxy.Prelude.Int.{ℤ, pos, ◌+ℤ◌, ◌-ℤ◌, leb_ℤ, eqb_ℤ}

-- The statics of the file; a plugin is an identity, and `library` tells whether the pointer is set.
pub record Analyzer : Type 0 where
  pub library : Bool
  pub plugin : Option ℕ
  pub plugin_enable : Bool
  pub auto_unload : Bool
  pub safe_mode : Bool
  pub reference_count : ℤ

unfoldable pub is_loaded : Analyzer → Bool
is_loaded a = elim a.plugin [ none ↦ false | some p ↦ true ]

-- `opened` tells whether `dlopen` succeeds; a failure of `dlsym` is `none`.
unfoldable pub module_loader : Analyzer → Bool → Option ℕ → Analyzer × Bool
unfolding is_loaded
module_loader a opened symbol =
    if is_loaded a
    then (a, false)
    else if opened
    then (
      record a { library = true; plugin_enable = false; auto_unload = false; plugin = symbol },
      elim symbol [ none ↦ false | some p ↦ true ],
    )
    else (record a { library = false }, false)

-- `closed` tells whether `dlclose` succeeds.
unfoldable pub module_unload : Analyzer → Bool → Analyzer × Bool
unfolding is_loaded
module_unload a closed =
    if is_loaded a
    then (if leb_ℤ a.reference_count (pos 0)
        then (if a.library
            then (if closed
                then (record a { plugin = none; library = false }, true)
                else (record a { plugin = none }, false))
            else (record a { plugin = none }, true))
        else (record a { auto_unload = true }, false))
    else (a, false)

unfoldable pub set_enable : Analyzer → Bool → Analyzer × Bool
unfolding is_loaded
set_enable a on_off =
    let enable = on_off && is_loaded a in (record a { plugin_enable = enable }, enable)

unfoldable pub set_safe_mode : Analyzer → Bool → Analyzer
set_safe_mode a on_off = record a { safe_mode = on_off }

-- `data` is what the plugin's own function returns; NULL is `none`.
unfoldable pub analyzer_allocate : Analyzer → Option ℕ → Analyzer × Option ℕ
unfolding is_loaded
analyzer_allocate a data' =
    if is_loaded a && a.plugin_enable
    then elim data' [
      | none ↦ (a, none)
      | some d ↦ (record a { reference_count = a.reference_count +ℤ pos 1 }, some d)
    ]
    else (a, none)

unfoldable pub analyzer_release : Analyzer → Bool → Option ℕ → Analyzer
unfolding is_loaded module_unload
analyzer_release a closed data' = elim data' [
  | none ↦ a
  | some d ↦
      let less = record a { reference_count = a.reference_count -ℤ pos 1 } in
      if is_loaded a
      then (if eqb_ℤ less.reference_count (pos 0) && less.auto_unload
          then (module_unload less closed).0
          else less)
      else a
]

-- `answer` is what the plugin returns; an exception that the safe mode catches is `none`. The fast
-- mode has none: such a fault ends the program there.
unfoldable pub analyze_packet : Analyzer → Option ℕ → Option ℕ → Analyzer × ℕ
unfolding is_loaded
analyze_packet a data' answer =
    let held : Bool = elim data' [ none ↦ false | some d ↦ true ] in
    if a.plugin_enable && held && is_loaded a
    then elim answer [
      | some value ↦ (a, value)
      | none ↦
          if a.safe_mode
          then (record a { plugin_enable = false; auto_unload = true }, 0)
          else (a, 0)
    ]
    else (a, 0)

-- The settings of the configuration file that the start reads.
pub record PluginSettings : Type 0 where
  pub load_on_boot : ℤ
  pub enable_on_boot : ℤ
  pub plugin_file : Option ℕ

-- A file is an identity; `opened` and `symbol` are the answers for it.
unfoldable pub load_packet_analyzer :
    PluginSettings → (ℕ → Bool) → (ℕ → Option ℕ) → Analyzer → Bool → Option ℕ → Analyzer × ℕ
unfolding module_loader set_enable
load_packet_analyzer settings opened symbol a boot module_name =
    let file : Option ℕ = elim module_name [ none ↦ settings.plugin_file | some f ↦ some f ] in
    if boot && eqb_ℤ settings.load_on_boot (pos 0) then (a, 1) else elim file [
      | none ↦ (a, 3)
      | some f ↦
          let (a', ok) = module_loader a (opened f) (symbol f) in
          if ok
          then (
            if boot && not (eqb_ℤ settings.enable_on_boot (pos 0))
                then (set_enable a' true).0
                else a',
            0,
          )
          else (a', 2)
    ]
