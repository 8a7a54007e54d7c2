-- ===== src/Sci/Send.antt =====
-- `send` of dsp/src/c2837x_block_sci.c: a frame is queued into the transmit FIFO over several
-- calls, and confirmed as a whole when the last octet has left.
use dsp_sim_bridge.Common.{
  ℕ, zero, suc, ◌+◌, ◌-◌, ◌/◌, Bool, true, false, Option, none, some, List, ℤ, pos, failed, ◌&&◌,
  ◌||◌, not, ◌==◌, ltb, is_odd, get_or, add32, sub32, low_octet, high_octet, if◌then◌else◌,
}
use dsp_sim_bridge.Sci.Types.{
  SciDescriptor, ChannelRuntime, Peripheral, Hardware, Channel, tx_fifo_depth,
}
use dsp_sim_bridge.Sci.Session.{
  has_ctrl, registers, clear_tx_pending, ctrl_rx_level, ctrl_tx_level, drive_ctrl,
  close_after_error,
}
use dsp_sim_bridge.Sci.Receive.{is_connected}

-- `data_words == tx_pending_data_words`
abbrev pub same_words : Option ℕ → Option ℕ → Bool
same_words none none = true
same_words none (some j) = false
same_words (some i) none = false
same_words (some i) (some j) = i == j

abbrev pub is_null : Option ℕ → Bool
is_null none = true
is_null (some i) = false

-- The two tests of `send` while a frame is pending.
unfoldable pub pending_mismatch : Option ℕ → ℕ → ChannelRuntime → Bool
pending_mismatch data_words count_octets r =
    not (same_words data_words r.tx_pending_data_words)
    || not (count_octets == r.tx_pending_total_octets)

unfoldable pub pending_corrupt : ChannelRuntime → Bool
pending_corrupt r =
    is_null r.tx_pending_data_words
    || r.tx_pending_total_octets == 0
    || is_odd r.tx_pending_total_octets
    || ltb r.tx_pending_total_octets r.tx_pending_queued_octets

-- Whether `ctrl_tx_active` contradicts what is pending.
unfoldable pub ctrl_inconsistent : Bool → ChannelRuntime → Bool
ctrl_inconsistent has r =
    if r.software_pending
    then (has && not r.ctrl_tx_active) || (not has && r.ctrl_tx_active)
    else r.ctrl_tx_active

-- The octet at a wire offset of the words from index `at` on.
unfoldable pub octet_at : List ℕ → ℕ → ℕ → ℕ
octet_at frame at wire_offset =
    let word = get_or frame (at + wire_offset / 2) 0 in
    if is_odd wire_offset then high_octet word else low_octet word

-- The index behind a pointer; NULL was rejected before it is followed.
abbrev pub word_index : Option ℕ → ℕ
word_index none = 0
word_index (some at) = at

module _ {H : Type 0} (hw : Hardware H) where
  -- The `for` loop: `count` octets from a wire offset on.
  unfoldable pub queue_octets : Peripheral → List ℕ → ℕ → ℕ → ℕ → H → H
  unfolding octet_at
  queue_octets p frame at wire_offset zero h = h
  queue_octets p frame at wire_offset (suc count) h =
      queue_octets p frame at (add32 wire_offset 1) count
        (hw.write_txbuf p (octet_at frame at wire_offset) h)

  unfoldable pub send_rejected : Channel H → ℤ × Channel H
  send_rejected c = (failed, close_after_error hw c)

  -- Everything is queued: confirm the frame when the FIFO and the shift register are empty.
  unfoldable pub confirm_pending : SciDescriptor → Peripheral → Channel H → ℤ × Channel H
  unfolding send_rejected
  confirm_pending config p c =
      let (fifo_occupied, h1) = hw.txffst p c.hardware in
      let (empty, h2) = hw.txempty p h1 in
      let c1 = record c { hardware = h1 } in
      if ltb tx_fifo_depth fifo_occupied
      then send_rejected c1
      else if fifo_occupied == 0
      then (if empty
          then (
            pos c.runtime.tx_pending_total_octets,
            record c {
              runtime = record (clear_tx_pending c.runtime) {
                ctrl_tx_active = if has_ctrl (some config) then false else c.runtime.ctrl_tx_active;
              };
              hardware = drive_ctrl hw ctrl_rx_level (some config) h2;
            },
          )
          else (pos 0, record c { hardware = h2 }))
      else (pos 0, c1)

  -- `write_octets`, by `fifo_occupied`.
  unfoldable pub write_octets : ℕ → Channel H → ℕ
  write_octets fifo_occupied c =
      let available_slots = tx_fifo_depth - fifo_occupied in
      let remaining_octets =
        sub32 c.runtime.tx_pending_total_octets c.runtime.tx_pending_queued_octets in
      if ltb available_slots remaining_octets then available_slots else remaining_octets

  -- One bounded pass that fills the FIFO.
  unfoldable pub fill_fifo : Peripheral → List ℕ → Channel H → ℤ × Channel H
  unfolding send_rejected write_octets queue_octets
  fill_fifo p frame c =
      let (fifo_occupied, h1) = hw.txffst p c.hardware in
      let count = write_octets fifo_occupied c in
      if ltb tx_fifo_depth fifo_occupied then send_rejected (record c { hardware = h1 }) else (
        pos 0,
        record c {
          runtime = record c.runtime {
            tx_pending_queued_octets = add32 c.runtime.tx_pending_queued_octets count;
          };
          hardware =
              queue_octets p frame (word_index c.runtime.tx_pending_data_words)
                c.runtime.tx_pending_queued_octets count h1;
        },
      )

  -- `send` from the test of `tx_pending_queued_octets` on.
  unfoldable pub advance_pending : SciDescriptor → Peripheral → List ℕ → Channel H → ℤ × Channel H
  unfolding confirm_pending fill_fifo
  advance_pending config p frame c =
      if c.runtime.tx_pending_queued_octets == c.runtime.tx_pending_total_octets
      then confirm_pending config p c
      else fill_fifo p frame c

  -- The frame becomes pending.
  unfoldable pub make_pending : Option ℕ → ℕ → Channel H → Channel H
  make_pending data_words count_octets c = record c {
    runtime = record c.runtime {
      software_pending = true;
      tx_pending_data_words = data_words;
      tx_pending_total_octets = count_octets;
      tx_pending_queued_octets = 0;
    };
  }

  -- With a control pin, the call that makes the frame pending only drives the pin.
  unfoldable pub begin_pending :
      SciDescriptor → Peripheral → List ℕ → Option ℕ → ℕ → Channel H → ℤ × Channel H
  unfolding make_pending advance_pending
  begin_pending config p frame data_words count_octets c =
      let c1 = make_pending data_words count_octets c in
      if has_ctrl (some config)
      then (
        pos 0,
        record c1 {
          runtime = record c1.runtime { ctrl_tx_active = true };
          hardware = drive_ctrl hw ctrl_tx_level (some config) c1.hardware;
        },
      )
      else advance_pending config p frame c1

  -- `send` on the registers that the configuration names.
  unfoldable pub send_registers :
      SciDescriptor → Option Peripheral → List ℕ → Option ℕ → ℕ → Channel H → ℤ × Channel H
  unfolding send_rejected advance_pending begin_pending
  send_registers config none frame data_words count_octets c = send_rejected c
  send_registers config (some p) frame data_words count_octets c =
      if c.runtime.software_pending
      then advance_pending config p frame c
      else begin_pending config p frame data_words count_octets c

  unfoldable pub send_configured :
      Option SciDescriptor → List ℕ → Option ℕ → ℕ → Channel H → ℤ × Channel H
  unfolding send_rejected send_registers
  send_configured none frame data_words count_octets c = send_rejected c
  send_configured (some config) frame data_words count_octets c =
      if ctrl_inconsistent (has_ctrl (some config)) c.runtime
      then send_rejected c
      else send_registers config (registers config.sci_module) frame data_words count_octets c

  -- `send` in a connected channel.
  unfoldable pub send_connected : List ℕ → Option ℕ → ℕ → Channel H → ℤ × Channel H
  unfolding send_rejected send_configured
  send_connected frame data_words count_octets c =
      if c.runtime.software_pending
      then (if pending_mismatch data_words count_octets c.runtime || pending_corrupt c.runtime
          then send_rejected c
          else send_configured c.hardware_config frame data_words count_octets c)
      else if count_octets == 0
      then (pos 0, c)
      else if is_null data_words || is_odd count_octets
      then send_rejected c
      else send_configured c.hardware_config frame data_words count_octets c

  -- `data_words` is the index of a word of `frame`, or `none` for NULL.
  unfoldable pub send : List ℕ → Option ℕ → ℕ → Channel H → ℤ × Channel H
  unfolding send_connected
  send frame data_words count_octets c =
      if is_connected c.runtime.connection_state
      then send_connected frame data_words count_octets c
      else (failed, c)
