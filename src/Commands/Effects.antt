-- ===== src/Commands/Effects.antt =====
-- src/commands.c: what the commands leave in the components that they reach.
use tcp_proxy.Prelude.{ℕ, ◌≡◌, refl, some, List, arith}
use tcp_proxy.Prelude.Int.{ℤ, eqb_ℤ_refl}
use tcp_proxy.Proxying.Admission.Channels.{InRange, Configured, set_default_channel-ChannelSet}
use tcp_proxy.Commands.{Console, Output, channel_set, cmd_default_channel}

-- What the command for the default channel leaves.
pub record DefaultChannel (s s' : Console) (channel : ℤ) (printed : Output) : Type 0 where
  pub configured : Configured s'.config
  pub reported : InRange s.config channel → printed ≡ channel_set channel
  pub chosen : InRange s.config channel → s'.config.default_server ≡ channel
  pub ignored : ¬ InRange s.config channel → s'.config.default_server ≡ s.config.default_server
  pub same_logger : s'.logger ≡ s.logger
  pub same_analyzer : s'.analyzer ≡ s.analyzer

-- For a configuration whose two channels are indices of servers, the command for the default channel
-- with an argument reports success and sets the channel if the number of the argument is such an
-- index, keeps the channel otherwise, leaves both channels indices of servers, and touches neither
-- the log nor the analyzer.
pub cmd_default_channel-DefaultChannel :
    (atoi : List ℕ → ℤ) (s : Console) (text : List ℕ)
    → Configured s.config
    → (let r = cmd_default_channel atoi s (some text) in DefaultChannel s r.0 (atoi text) r.1)
unfolding cmd_default_channel
cmd_default_channel-DefaultChannel atoi s text w =
    let (done, same) = set_default_channel-ChannelSet s.config (atoi text) w in
    record {
      configured = done.configured;
      reported = λ r. ground (arith, done.answered, done.chosen r, eqb_ℤ_refl (atoi text));
      chosen = done.chosen;
      ignored = done.ignored;
      same_logger = refl;
      same_analyzer = refl;
    }
