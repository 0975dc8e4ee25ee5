-- ===== src/Logger/Tests.antt =====
-- src/common_logger.c: two appenders and two messages.
use tcp_proxy.Prelude.{◌≡◌, refl, true, false, [], ◌∷◌}
use tcp_proxy.Logger.{
  Logger, con_dolog, con_add_appender, con_clear_appender, con_set_priority, con_is_enable,
}
use tcp_proxy.Logger.Delivery.{log_all, received, enabled, times, received-log_all}

abbrev started : Logger
started = record { appender_list = []; priority = 5; have_initialized = false }

abbrev two_appenders : Logger
two_appenders = con_add_appender (con_add_appender started true 21) true 22

received-log_all_example :
    received 21 (log_all 20 two_appenders ((3, 97 ∷ []) ∷ (6, 98 ∷ []) ∷ []))
    ≡ enabled 5 ((3, 97 ∷ []) ∷ (6, 98 ∷ []) ∷ [])
unfolding con_add_appender times
received-log_all_example =
    received-log_all 20 21 two_appenders ((3, 97 ∷ []) ∷ (6, 98 ∷ []) ∷ []) refl refl

-- The first message goes to the standard error.
first_message : (con_dolog 20 true started 3 []).0.appender_list ≡ 20 ∷ []
unfolding con_dolog
first_message = refl

all_cleared : (con_clear_appender two_appenders).appender_list ≡ []
unfolding con_clear_appender con_add_appender
all_cleared = refl

quiet : con_is_enable (con_set_priority two_appenders 2).0 3 ≡ false
unfolding con_is_enable con_set_priority con_add_appender
quiet = refl
