-- ===== src/Core/Config.antt =====
-- `c2837x_block_config_is_valid` of dsp/src/c2837x_block.c.
use dsp_sim_bridge.Common.{
  ℕ, ◌^◌, Bool, true, false, ◌&&◌, ◌||◌, ltb, leb, ◌==◌, is_odd, add32, if◌then◌else◌,
}
use dsp_sim_bridge.Wire.{header_size_bytes, sim_start_payload_size_bytes}
use dsp_sim_bridge.Wire.{response_payload_size_bytes}
use dsp_sim_bridge.Core.Types.{Config}

unfoldable pub maximum_inbound_payload_octets : Config → ℕ
maximum_inbound_payload_octets config =
    if ltb sim_start_payload_size_bytes config.input_payload_octets
    then config.input_payload_octets
    else sim_start_payload_size_bytes

unfoldable pub pointers_missing : Config → Bool
pointers_missing c =
    if c.config_set && c.iodevice_ops_set && c.iodevice_channel_set && c.rx_frame_words_set
      && c.tx_frame_words_set && c.input_object_set && c.output_object_set && c.algorithm_set
    then false
    else true

unfoldable pub callbacks_missing : Config → Bool
callbacks_missing c =
    let ops = c.ops_set in
    let algorithm = c.adapter_set in
    if ops.channel_init && ops.open_op && ops.listen && ops.get_connection_state && ops.receive
      && ops.send && ops.close && algorithm.reset_io && algorithm.on_start && algorithm.decode_input
      && algorithm.on_step && algorithm.encode_output && algorithm.on_stop
    then false
    else true

unfoldable pub lengths_bad : Config → Bool
lengths_bad c =
    is_odd c.rx_frame_capacity_octets
    || is_odd c.tx_frame_capacity_octets
    || is_odd c.input_payload_octets
    || is_odd c.output_payload_octets
    || is_odd c.max_payload_octets
    || ltb c.input_payload_octets 4
    || ltb c.output_payload_octets 4
    || ltb c.max_payload_octets sim_start_payload_size_bytes
    || ltb c.max_payload_octets c.input_payload_octets
    || ltb c.max_payload_octets c.output_payload_octets

unfoldable pub limits_bad : Config → Bool
unfolding maximum_inbound_payload_octets
limits_bad c =
    let minimum_rx_octets = add32 header_size_bytes (maximum_inbound_payload_octets c) in
    let minimum_tx_octets = add32 header_size_bytes (
      if ltb response_payload_size_bytes c.output_payload_octets
      then c.output_payload_octets
      else response_payload_size_bytes) in
    ltb c.rx_frame_capacity_octets minimum_rx_octets
    || ltb c.tx_frame_capacity_octets minimum_tx_octets
    || (if c.time_us_set then false else true)
    || c.interaction_timeout_us == 0
    || leb (2 ^ 31) c.interaction_timeout_us
    || c.transfer_timeout_us == 0
    || leb (2 ^ 31) c.transfer_timeout_us

-- The four tests with their early returns, in the order of the source.
unfoldable pub config_is_valid : Config → Bool
unfolding pointers_missing callbacks_missing lengths_bad limits_bad
config_is_valid c =
    if pointers_missing c
    then false
    else if callbacks_missing c
    then false
    else if lengths_bad c
    then false
    else if limits_bad c
    then false
    else true
