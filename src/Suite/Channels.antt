-- ===== src/Suite/Channels.antt =====
-- How the unit tests of src/channel/mpsc.rs and src/channel/oneshot.rs run: the comparison of results.
pub mod Mpsc
pub mod Oneshots
use eneste_rs.Prelude.{Bool, true, false}
use eneste_rs.Channel.{ChannelResult, ok, channel_error}

unfoldable pub result_eq : {A : Type 0} → (A → A → Bool) → ChannelResult A → ChannelResult A → Bool
result_eq equal (ok x) (ok y) = equal x y
result_eq equal (ok x) channel_error = false
result_eq equal channel_error (ok y) = false
result_eq equal channel_error channel_error = true
