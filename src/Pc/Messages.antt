-- ===== src/Pc/Messages.antt =====
-- The messages of simulink/c2837x_block_protocol.c: what the S-Function sends and waits for.
use dsp_sim_bridge.Common.{
  ℕ, true, Option, none, some, List, ◌++◌, ℤ, pos, failed, ◌==◌, leb, is_odd, if◌then◌else◌,
}
use dsp_sim_bridge.Pc.Frames.{
  Socket, Frame, write_le16, write_le32, read_le16, send_frame, recv_frame,
}

-- The constants of simulink/c2837x_block_protocol.h.
abbrev pub type_sim_start : ℕ
type_sim_start = 1

abbrev pub type_input_data : ℕ
type_input_data = 2

abbrev pub type_output_data : ℕ
type_output_data = 3

abbrev pub type_sim_stop : ℕ
type_sim_stop = 4

abbrev pub type_response : ℕ
type_response = 5

abbrev pub err_none : ℕ
err_none = 0

abbrev pub sim_start_payload_size : ℕ
sim_start_payload_size = 6

abbrev pub response_payload_size : ℕ
response_payload_size = 2

-- The tests of `c2837x_protocol_wait_response` on the frame.
unfoldable pub check_response : ℕ → Option Frame → ℤ
check_response expected_error none = failed
check_response expected_error (some frame) =
    if frame.type == type_response
    then (if frame.length == response_payload_size
        then (if read_le16 frame.payload == expected_error then pos 0 else failed)
        else failed)
    else failed

-- The tests of `c2837x_protocol_wait_output_data`: the payload, or `none` for the result -1,
-- and `*error_code`.
unfoldable pub check_output_data : Option Frame → Option (List ℕ) × ℕ
check_output_data none = (none, err_none)
check_output_data (some frame) =
    if frame.type == type_output_data
    then (some frame.payload, err_none)
    else if frame.type == type_response
    then (
      none,
      if leb response_payload_size frame.length then read_le16 frame.payload else err_none,
    )
    else (none, err_none)

module _ {S : Type 0} (io : Socket S) where
  unfoldable pub send_sim_start : ℕ → ℕ → ℕ → S → ℤ × S
  unfolding write_le16 write_le32
  send_sim_start protocol_version config_hash timeout_ms s =
      send_frame io type_sim_start sim_start_payload_size
        (some (write_le16 protocol_version ++ write_le32 config_hash)) timeout_ms s

  unfoldable pub send_sim_stop : ℕ → S → ℤ × S
  send_sim_stop timeout_ms s = send_frame io type_sim_stop 0 none timeout_ms s

  unfoldable pub send_input_data : Option (List ℕ) → ℕ → ℕ → S → ℤ × S
  send_input_data none length timeout_ms s = (failed, s)
  send_input_data (some payload) length timeout_ms s =
      if is_odd length
      then (failed, s)
      else send_frame io type_input_data length (some payload) timeout_ms s

  unfoldable pub wait_response : ℕ → ℕ → S → ℤ × S
  unfolding check_response
  wait_response expected_error timeout_ms s =
      let (frame, s1) = recv_frame io true response_payload_size timeout_ms s in
      (check_response expected_error frame, s1)

  unfoldable pub wait_output_data : ℕ → ℕ → S → (Option (List ℕ) × ℕ) × S
  unfolding check_output_data
  wait_output_data payload_capacity timeout_ms s =
      let (frame, s1) = recv_frame io true payload_capacity timeout_ms s in
      (check_output_data frame, s1)
