-- ===== src/Wire.antt =====
-- The wire protocol, version 1: the constants of dsp/inc/c2837x_block_protocol.h and the frame
-- builders of dsp/src/c2837x_block_protocol.c.
pub mod Frames
use dsp_sim_bridge.Common.{
  ℕ, zero, suc, ◌+◌, ◌/◌, List, [], ◌∷◌, Option, none, some, add32, get_or, drop, write_at, is_odd,
  if◌then◌else◌,
}

abbrev pub msg_sim_start : ℕ
msg_sim_start = 1

abbrev pub msg_input_data : ℕ
msg_input_data = 2

abbrev pub msg_output_data : ℕ
msg_output_data = 3

abbrev pub msg_sim_stop : ℕ
msg_sim_stop = 4

abbrev pub msg_response : ℕ
msg_response = 5

abbrev pub err_ok : ℕ
err_ok = 0

abbrev pub err_unknown_type : ℕ
err_unknown_type = 1

abbrev pub err_payload_length : ℕ
err_payload_length = 2

abbrev pub err_config_mismatch : ℕ
err_config_mismatch = 3

abbrev pub err_state : ℕ
err_state = 4

abbrev pub err_internal : ℕ
err_internal = 5

abbrev pub err_protocol_version : ℕ
err_protocol_version = 6

abbrev pub err_step_index : ℕ
err_step_index = 7

abbrev pub header_size_bytes : ℕ
header_size_bytes = 4

abbrev pub sim_start_payload_size_bytes : ℕ
sim_start_payload_size_bytes = 6

abbrev pub response_payload_size_bytes : ℕ
response_payload_size_bytes = 2

-- The loop of `c2837x_block_build_frame` over the payload words, from index `offset` of the frame.
copy_words : ℕ → ℕ → List ℕ → List ℕ → List ℕ
copy_words zero offset payload tx = tx
copy_words (suc n) offset payload tx =
    copy_words n (offset + 1) (drop 1 payload) (write_at offset (get_or payload 0 0 ∷ []) tx)

-- The new frame buffer and the number of wire octets.
unfoldable pub build_frame : List ℕ → ℕ → ℕ → List ℕ → List ℕ × ℕ
unfolding copy_words
build_frame tx msg_type payload_wire_bytes payload_words = (
  copy_words (add32 payload_wire_bytes 1 / 2) 2 payload_words
      (write_at 1 (payload_wire_bytes ∷ []) (write_at 0 (msg_type ∷ []) tx)),
  add32 header_size_bytes payload_wire_bytes,
)

-- Type and length, or `none` for -1.
unfoldable pub parse_header : List ℕ → Option (ℕ × ℕ)
parse_header header_words =
    let type = get_or header_words 0 0 in
    let length = get_or header_words 1 0 in if is_odd length then none else some (type, length)

unfoldable pub build_response : List ℕ → ℕ → List ℕ × ℕ
build_response tx error_code = (
  write_at 2 (error_code ∷ [])
      (write_at 1 (response_payload_size_bytes ∷ []) (write_at 0 (msg_response ∷ []) tx)),
  add32 header_size_bytes 2,
)
