-- ===== src/W5300/Udp/Device.antt =====
-- `c2837x_w5300_udp_iodevice_ops` of dsp/src/c2837x_w5300_udp_channel.c as the device of the protocol
-- Core, and an instance of the Core over it.
use dsp_sim_bridge.Common.{ℕ, zero, suc, ◌+◌, ◌/◌, ℤ, pos, negsuc, take, some, List, [], ◌∷◌}
use dsp_sim_bridge.Core.Types.{Ops}
use dsp_sim_bridge.W5300.Hal.{Bus}
use dsp_sim_bridge.W5300.Channel.{Platform}
use dsp_sim_bridge.W5300.Device.{Adapter}
use dsp_sim_bridge.W5300.Udp.{UdpChannel, udp_channel_init}
use dsp_sim_bridge.W5300.Udp.Control.{
  udp_open_channel, udp_listen_channel, udp_get_connection_state,
}
use dsp_sim_bridge.W5300.Udp.Receiving.{udp_receive}
use dsp_sim_bridge.W5300.Udp.Sending.{udp_channel_send}
use dsp_sim_bridge.W5300.Udp.Close.{udp_close_channel}

-- The room of the frame that `receive` is given: it writes every word before it reads it.
unfoldable pub blank : ℕ → List ℕ
blank zero = []
blank (suc n) = 0 ∷ blank n

-- The words that a positive number of octets fills.
unfoldable pub stored : ℤ → List ℕ → List ℕ
stored (pos n) words = take (n / 2) words
stored (negsuc n) words = []

module _ {W : Type 0} (bus : Bus W) (platform : Platform W) (adapter : Adapter W) where
  unfoldable pub udp_ops : Ops (UdpChannel × W)
  unfolding blank stored
  udp_ops = record {
    channel_init = λ (c, w). (udp_channel_init platform c w, w);
    open_op =
        λ (c, w). let (result, c1, w1) = udp_open_channel bus platform c w in (result, (c1, w1));
    listen =
        λ (c, w). let (result, c1, w1) = udp_listen_channel bus platform c w in (result, (c1, w1));
    get_connection_state = λ (c, w).
        let (state, c1, w1) = udp_get_connection_state bus platform c w in (state, (c1, w1));
    receive = λ capacity (c, w).
        let (result, words, c1, w1) = udp_receive bus (blank ((capacity + 1) / 2)) capacity c w in
        (result, stored result words, (c1, w1));
    send = λ frame at count (c, w).
        let (result, c1, w1) = udp_channel_send bus frame (some at) count c w in (result, (c1, w1));
    close =
        λ (c, w). let ((result, c1), w1) = udp_close_channel bus platform c w in (result, (c1, w1));
    reset_io = λ (c, w). (c, adapter.reset_io w);
    on_start = λ (c, w). let (result, w1) = adapter.on_start w in (result, (c, w1));
    decode_input = λ words (c, w). (c, adapter.decode_input words w);
    on_step = λ (c, w). let (result, w1) = adapter.on_step w in (result, (c, w1));
    encode_output = λ (c, w). adapter.encode_output w;
    on_stop = λ (c, w). (c, adapter.on_stop w);
    time_us = λ (c, w). let (now_us, w1) = platform.time_us w in (now_us, (c, w1));
  }
