-- ===== src/Channel.antt =====
-- src/channel/mod.rs: the error of both channels, as the failing case of a result.
pub data ChannelResult {ℓ} (A : Type ℓ) : Type ℓ where
  ok : A → ChannelResult A
  channel_error : ChannelResult A
