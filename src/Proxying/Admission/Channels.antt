-- ===== src/Proxying/Admission/Channels.antt =====
-- src/proxying.c: `set_default_channel` and `set_fallback_channel`.
use tcp_proxy.Prelude.{◌≡◌, refl, inl, inr, true, false, ◌&&◌, arith, length, Bool-cases}
use tcp_proxy.Prelude.Int.{ℤ, pos, ◌≤ℤ◌, ◌<ℤ◌, ltb_ℤ, leb_ℤ}
use tcp_proxy.Proxying.Admission.{Config, set_default_channel}

-- The channel is the index of a server.
abbrev pub InRange : Config → ℤ → Type 0
InRange c channel = (pos 0 ≤ℤ channel) × (channel <ℤ pos (length c.servers))

-- Both channels of the configuration are.
pub record Configured (c : Config) : Type 0 where
  pub default_in_range : InRange c c.default_server
  pub fallback_in_range : InRange c c.on_failed_channel

-- What a command that sets a channel leaves: the new channel, if it is in range, and else the old
-- one, which is also the answer; every server stays in reach.
pub record ChannelSet (c : Config) (old channel : ℤ) (c' : Config) (answer new : ℤ) : Type 0 where
  pub answered : answer ≡ new
  pub chosen : InRange c channel → new ≡ channel
  pub ignored : ¬ InRange c channel → new ≡ old
  pub configured : Configured c'
  pub same_servers : c'.servers ≡ c.servers

in_range :
    (c : Config) (channel : ℤ)
    → (leb_ℤ (pos 0) channel && ltb_ℤ channel (pos (length c.servers))) ≡ true
    → InRange c channel
in_range c channel e = (ground (arith, e), ground (arith, e))

out_of_range :
    (c : Config) (channel : ℤ)
    → (leb_ℤ (pos 0) channel && ltb_ℤ channel (pos (length c.servers))) ≡ false
    → ¬ InRange c channel
out_of_range c channel e r = absurd (ground (arith, e, r.0, r.1))

-- For a configuration whose two channels are indices of servers, `set_default_channel` sets the
-- default channel if the new one is such an index and else keeps it, returns the default channel,
-- and leaves both channels indices of servers, with the servers and the fallback channel as they
-- were.
pub set_default_channel-ChannelSet :
    (c : Config) (channel : ℤ)
    → Configured c
    → (let r = set_default_channel c channel in
        ChannelSet c c.default_server channel r.0 r.1 r.0.default_server
        × (r.0.on_failed_channel ≡ c.on_failed_channel))
unfolding set_default_channel
set_default_channel-ChannelSet c channel w =
    elim (Bool-cases (leb_ℤ (pos 0) channel && ltb_ℤ channel (pos (length c.servers)))) [
      | inl e ↦ rw e (
        record {
          answered = refl;
          chosen = λ r. refl;
          ignored = λ n. absurd (n (in_range c channel e));
          configured = record {
            default_in_range = in_range c channel e;
            fallback_in_range = w.fallback_in_range;
          };
          same_servers = refl;
        },
        refl,
      )
      | inr e ↦ rw e (
        record {
          answered = refl;
          chosen = λ r. absurd (out_of_range c channel e r);
          ignored = λ n. refl;
          configured = w;
          same_servers = refl;
        },
        refl,
      )
    ]
