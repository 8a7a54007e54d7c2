-- ===== src/Core/Invariant/Accepted.antt =====
-- What `c2837x_block_config_is_valid` accepts: exactly the configurations whose pointers are set
-- and whose sizes and timeouts are within the limits.
use dsp_sim_bridge.Common.{◌≡◌, ◌<◌, ◌≤◌, ◌%◌, ◌+◌, ◌^◌, true, false, ◌↔◌, arith}
use dsp_sim_bridge.Core.Types.{Config}
use dsp_sim_bridge.Core.Config.{
  config_is_valid, pointers_missing, callbacks_missing, lengths_bad, limits_bad,
}
use dsp_sim_bridge.Core.Invariant.{InRange, Limits}

-- Every pointer that the Core follows is set.
pub record HasPointers (c : Config) : Type 0 where
  pub config : c.config_set ≡ true
  pub iodevice_ops : c.iodevice_ops_set ≡ true
  pub iodevice_channel : c.iodevice_channel_set ≡ true
  pub rx_frame_words : c.rx_frame_words_set ≡ true
  pub tx_frame_words : c.tx_frame_words_set ≡ true
  pub input_object : c.input_object_set ≡ true
  pub output_object : c.output_object_set ≡ true
  pub algorithm : c.algorithm_set ≡ true

pub record HasCallbacks (c : Config) : Type 0 where
  pub channel_init : c.ops_set.channel_init ≡ true
  pub open_op : c.ops_set.open_op ≡ true
  pub listen : c.ops_set.listen ≡ true
  pub get_connection_state : c.ops_set.get_connection_state ≡ true
  pub receive : c.ops_set.receive ≡ true
  pub send : c.ops_set.send ≡ true
  pub close : c.ops_set.close ≡ true
  pub reset_io : c.adapter_set.reset_io ≡ true
  pub on_start : c.adapter_set.on_start ≡ true
  pub decode_input : c.adapter_set.decode_input ≡ true
  pub on_step : c.adapter_set.on_step ≡ true
  pub encode_output : c.adapter_set.encode_output ≡ true
  pub on_stop : c.adapter_set.on_stop ≡ true

pointers_lem : (c : Config) → pointers_missing c ≡ false → HasPointers c
unfolding pointers_missing
pointers_lem c h = ground arith

callbacks_lem : (c : Config) → callbacks_missing c ≡ false → HasCallbacks c
unfolding callbacks_missing
callbacks_lem c h = ground arith

pointers_missing-false : (c : Config) → HasPointers c → pointers_missing c ≡ false
unfolding pointers_missing
pointers_missing-false c p = ground arith

callbacks_missing-false : (c : Config) → HasCallbacks c → callbacks_missing c ≡ false
unfolding callbacks_missing
callbacks_missing-false c p = ground arith

abbrev Lengths : Config → Type 0
Lengths c =
    (c.rx_frame_capacity_octets % 2 ≡ 0)
    × (c.tx_frame_capacity_octets % 2 ≡ 0)
    × (c.input_payload_octets % 2 ≡ 0)
    × (c.output_payload_octets % 2 ≡ 0)
    × (c.max_payload_octets % 2 ≡ 0)
    × (4 ≤ c.input_payload_octets)
    × (4 ≤ c.output_payload_octets)
    × (6 ≤ c.max_payload_octets)
    × (c.input_payload_octets ≤ c.max_payload_octets)
    × (c.output_payload_octets ≤ c.max_payload_octets)

lengths_lem : (c : Config) → lengths_bad c ≡ false → Lengths c
unfolding lengths_bad
lengths_lem c h = ground arith

abbrev Room : Config → Type 0
Room c =
    (4 + c.input_payload_octets ≤ c.rx_frame_capacity_octets)
    × (10 ≤ c.rx_frame_capacity_octets)
    × (4 + c.output_payload_octets ≤ c.tx_frame_capacity_octets)
    × (6 ≤ c.tx_frame_capacity_octets)
    × (0 < c.interaction_timeout_us)
    × (c.interaction_timeout_us < 2 ^ 31)
    × (0 < c.transfer_timeout_us)
    × (c.transfer_timeout_us < 2 ^ 31)
    × (c.time_us_set ≡ true)

limits_lem : (c : Config) → InRange c → limits_bad c ≡ false → Room c
unfolding limits_bad
limits_lem c r h = ground arith

limits_bad-false : (c : Config) → InRange c → Limits c → c.time_us_set ≡ true → limits_bad c ≡ false
unfolding limits_bad
limits_bad-false c r l t = ground arith

lengths_bad-false : (c : Config) → Limits c → lengths_bad c ≡ false
unfolding lengths_bad
lengths_bad-false c l = ground arith

config_parts :
    (c : Config)
    → config_is_valid c ≡ true
    → (pointers_missing c ≡ false)
      × (callbacks_missing c ≡ false)
      × (lengths_bad c ≡ false)
      × (limits_bad c ≡ false)
unfolding config_is_valid
config_parts c h = ground arith

config_whole :
    (c : Config)
    → pointers_missing c ≡ false
    → callbacks_missing c ≡ false
    → lengths_bad c ≡ false
    → limits_bad c ≡ false
    → config_is_valid c ≡ true
unfolding config_is_valid
config_whole c p q r s = ground arith

-- What it takes to be accepted.
pub record IsAccepted (c : Config) : Type 0 where
  pub pointers : HasPointers c
  pub callbacks : HasCallbacks c
  pub clock : c.time_us_set ≡ true
  pub limits : Limits c

accepted-Limits : (c : Config) → Lengths c → Room c → Limits c
accepted-Limits c l r = ground arith

-- A configuration whose fields fit their C types is valid for `c2837x_block_config_is_valid`
-- exactly when every pointer and callback is set, all five sizes are even, both payloads hold a
-- step index and fit the maximum payload, the receive frame holds the header with the input or
-- the SIM_START payload, the transmit frame holds the header with the output or the RESPONSE
-- payload, and both timeouts lie strictly between 0 and 2^31 microseconds.
pub config_is_valid_iff : (c : Config) → InRange c → (config_is_valid c ≡ true) ↔ IsAccepted c
config_is_valid_iff c range = (forth, back)
  where
    forth : config_is_valid c ≡ true → IsAccepted c
    forth h =
        let (p, q, l, r) = config_parts c h in
        let room = limits_lem c range r in
        record {
          pointers = pointers_lem c p;
          callbacks = callbacks_lem c q;
          clock = room.8;
          limits = accepted-Limits c (lengths_lem c l) room;
        }

    back : IsAccepted c → config_is_valid c ≡ true
    back a =
        config_whole c (pointers_missing-false c a.pointers) (callbacks_missing-false c a.callbacks)
          (lengths_bad-false c a.limits) (limits_bad-false c range a.limits a.clock)
