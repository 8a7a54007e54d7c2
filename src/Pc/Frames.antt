-- ===== src/Pc/Frames.antt =====
-- Octets and frames of simulink/c2837x_block_protocol.c: the little-endian helpers,
-- `c2837x_protocol_send_frame` and `c2837x_protocol_recv_frame`. Pointers to the socket and to the
-- out parameters, which the callers take with `&`, are not NULL here; the payload may be.
use dsp_sim_bridge.Common.{
  ℕ, ◌+◌, ◌*◌, ◌/◌, ◌%◌, ◌^◌, Bool, Option, none, some, List, [], ◌∷◌, ◌++◌, ℤ, pos, failed,
  is_zero, ltb, is_odd, if◌then◌else◌, take, get_or,
}

-- `c2837x_socket_send_all` and `c2837x_socket_recv_exact` of simulink/c2837x_block_pc_socket.c:
-- the octets or their count, the timeout in milliseconds, the socket. 0 stands for success; the
-- list holds the octets that were stored.
pub record Socket (S : Type 0) : Type 0 where
  pub send_all : List ℕ → ℕ → S → ℤ × S
  pub recv_exact : ℕ → ℕ → S → ℤ × List ℕ × S

abbrev pub header_size : ℕ
header_size = 4

unfoldable pub write_le16 : ℕ → List ℕ
write_le16 val = val % 2 ^ 8 ∷ val / 2 ^ 8 % 2 ^ 8 ∷ []

unfoldable pub read_le16 : List ℕ → ℕ
read_le16 buf = get_or buf 0 0 + get_or buf 1 0 * 2 ^ 8

unfoldable pub write_le32 : ℕ → List ℕ
write_le32 val =
    val % 2 ^ 8 ∷ val / 2 ^ 8 % 2 ^ 8 ∷ val / 2 ^ 16 % 2 ^ 8 ∷ val / 2 ^ 24 % 2 ^ 8 ∷ []

-- A received frame: `*type`, `*length` and the octets in `payload`.
pub record Frame : Type 0 where
  pub type : ℕ
  pub length : ℕ
  pub payload : List ℕ

module _ {S : Type 0} (io : Socket S) where
  -- The payload behind a header that was sent.
  unfoldable pub send_payload : ℕ → Option (List ℕ) → ℕ → S → ℤ × S
  send_payload length none timeout_ms s = (pos 0, s)
  send_payload length (some payload) timeout_ms s =
      if ltb 0 length
      then (let (result, s1) = io.send_all (take length payload) timeout_ms s in
          if is_zero result then (pos 0, s1) else (failed, s1))
      else (pos 0, s)

  unfoldable pub send_frame : ℕ → ℕ → Option (List ℕ) → ℕ → S → ℤ × S
  unfolding send_payload write_le16
  send_frame type length payload timeout_ms s =
      if is_odd length
      then (failed, s)
      else let (result, s1) = io.send_all (write_le16 type ++ write_le16 length) timeout_ms s in
        if is_zero result then send_payload length payload timeout_ms s1 else (failed, s1)

  -- The payload behind a header that was received and accepted.
  unfoldable pub recv_payload : ℕ → ℕ → Bool → ℕ → S → Option Frame × S
  recv_payload type length payload_set timeout_ms s =
      if ltb 0 length
      then (if payload_set
          then (let (result, octets, s1) = io.recv_exact length timeout_ms s in
              if is_zero result
              then (some (record { type = type; length = length; payload = octets }), s1)
              else (none, s1))
          else (none, s))
      else (some (record { type = type; length = length; payload = [] }), s)

  -- The header has been received.
  unfoldable pub check_received : List ℕ → Bool → ℕ → ℕ → S → Option Frame × S
  unfolding recv_payload read_le16
  check_received header payload_set payload_capacity timeout_ms s =
      let recv_type = read_le16 header in
      let recv_length = read_le16 (get_or header 2 0 ∷ get_or header 3 0 ∷ []) in
      if is_odd recv_length
      then (none, s)
      else if ltb payload_capacity recv_length
      then (none, s)
      else recv_payload recv_type recv_length payload_set timeout_ms s

  -- `none` stands for the result -1.
  unfoldable pub recv_frame : Bool → ℕ → ℕ → S → Option Frame × S
  unfolding check_received
  recv_frame payload_set payload_capacity timeout_ms s =
      let (result, header, s1) = io.recv_exact header_size timeout_ms s in
      if is_zero result
      then check_received header payload_set payload_capacity timeout_ms s1
      else (none, s1)
