-- ===== src/Sci/Receive.antt =====
-- `receive` of dsp/src/c2837x_block_sci.c: octets of the receive FIFO become words of the frame;
-- an odd octet is staged until the next call.
use dsp_sim_bridge.Common.{
  ℕ, zero, suc, ◌-◌, ◌%◌, Bool, true, false, Option, none, some, List, [], ◌∷◌, ◌++◌, ℤ, pos,
  failed, ◌&&◌, not, ◌==◌, ◌!=◌, leb, ltb, u16, add32, low_octet, join_octets, if◌then◌else◌,
}
use dsp_sim_bridge.Core.Types.{
  IoConnectionState, closed, open_, listening, connected, peer_closed, connection_error,
}
use dsp_sim_bridge.Sci.Types.{SciDescriptor, Peripheral, Hardware, Channel}
use dsp_sim_bridge.Sci.Session.{has_ctrl, registers, has_rx_error, close_after_error}

abbrev pub is_connected : IoConnectionState → Bool
is_connected connected = true
is_connected closed = false
is_connected open_ = false
is_connected listening = false
is_connected peer_closed = false
is_connected connection_error = false

-- `capacity_octets & ~1u`. An `unsigned int` of the C2837x has 16 bits, so the mask keeps the low
-- 16 bits of the capacity but the lowest one.
abbrev pub capacity_even : ℕ → ℕ
capacity_even capacity_octets = u16 capacity_octets - capacity_octets % 2

-- The locals of `receive` while it works: `available_octets`, `produced_octets` and the words
-- stored so far, the n-th of them at index n.
pub record Progress (S : Type 0) : Type 0 where
  pub available_octets : ℕ
  pub produced_octets : ℕ
  pub words : List ℕ
  pub state : S

module _ {H : Type 0} (hw : Hardware H) where
  -- `c2837x_block_sci_read_octet`
  unfoldable pub read_octet : Peripheral → H → ℕ × H
  read_octet p h = let (value, h1) = hw.read_rxbuf p h in (low_octet value, h1)

  -- `first_octet | (second_octet << 8)` of the next two octets.
  unfoldable pub read_word : Peripheral → H → ℕ × H
  unfolding read_octet
  read_word p h =
      let (first_octet, h1) = read_octet p h in
      let (second_octet, h2) = read_octet p h1 in (join_octets first_octet second_octet, h2)

  -- The `while` loop: two octets less are available after each pass.
  unfoldable pub read_pairs : Peripheral → ℕ → ℕ → ℕ → H → Progress H
  unfolding read_word
  read_pairs p zero produced capacity h = record {
    available_octets = 0;
    produced_octets = produced;
    words = [];
    state = h;
  }
  read_pairs p (suc zero) produced capacity h = record {
    available_octets = 1;
    produced_octets = produced;
    words = [];
    state = h;
  }
  read_pairs p (suc (suc available)) produced capacity h =
      let (word, h1) = read_word p h in
      let rest = read_pairs p available (add32 produced 2) capacity h1 in
      if leb (add32 produced 2) capacity
      then record rest { words = word ∷ rest.words }
      else record {
        available_octets = suc (suc available);
        produced_octets = produced;
        words = [];
        state = h;
      }

  -- The staged octet, if there is one, and the first octet of the FIFO make the first word.
  unfoldable pub finish_staged : Peripheral → ℕ → Channel H → Progress (Channel H)
  unfolding read_octet
  finish_staged p available c =
      if c.runtime.rx_staging_valid && (available != 0)
      then (let (second_octet, h) = read_octet p c.hardware in
          record {
            available_octets = available - 1;
            produced_octets = 2;
            words = join_octets (low_octet c.runtime.rx_staging_octet) second_octet ∷ [];
            state = record c {
              runtime = record c.runtime { rx_staging_valid = false };
              hardware = h;
            };
          })
      else record { available_octets = available; produced_octets = 0; words = []; state = c }

  -- A single octet left over is staged.
  unfoldable pub stage_octet : Peripheral → ℕ → Progress (Channel H) → Channel H
  unfolding read_octet
  stage_octet p capacity s =
      let c = s.state in
      if s.available_octets != 0 && not c.runtime.rx_staging_valid && ltb s.produced_octets capacity
      then (let (octet, h) = read_octet p c.hardware in
          record c {
            runtime = record c.runtime { rx_staging_octet = octet; rx_staging_valid = true };
            hardware = h;
          })
      else c

  -- The part of `receive` that reads the FIFO, with the even capacity.
  unfoldable pub receive_octets : Peripheral → ℕ → Channel H → ℤ × List ℕ × Channel H
  unfolding finish_staged read_pairs stage_octet
  receive_octets p capacity c =
      let (available, h) = hw.rxffst p c.hardware in
      let s = finish_staged p available (record c { hardware = h }) in
      let c1 = s.state in
      let t = read_pairs p s.available_octets s.produced_octets capacity c1.hardware in
      (
        pos t.produced_octets,
        s.words ++ t.words,
        stage_octet p capacity (record {
          available_octets = t.available_octets;
          produced_octets = t.produced_octets;
          words = [];
          state = record c1 { hardware = t.state };
        }),
      )

  unfoldable pub receive_rejected : Channel H → ℤ × List ℕ × Channel H
  receive_rejected c = (failed, [], close_after_error hw c)

  -- `receive` on the registers that the configuration names.
  unfoldable pub receive_registers :
      Option Peripheral → Bool → ℕ → Channel H → ℤ × List ℕ × Channel H
  unfolding receive_rejected receive_octets
  receive_registers none data_words_set capacity c = receive_rejected c
  receive_registers (some p) data_words_set capacity c =
      let (error, h1) = has_rx_error hw p c.hardware in
      let c1 = record c { hardware = h1 } in
      if error
      then receive_rejected c1
      else if capacity_even capacity == 0
      then (pos 0, [], c1)
      else if data_words_set
      then receive_octets p (capacity_even capacity) c1
      else (failed, [], c1)

  unfoldable pub receive_configured :
      Option SciDescriptor → Bool → ℕ → Channel H → ℤ × List ℕ × Channel H
  unfolding receive_registers
  receive_configured none data_words_set capacity c = receive_rejected c
  receive_configured (some config) data_words_set capacity c =
      if has_ctrl (some config) && c.runtime.ctrl_tx_active
      then receive_rejected c
      else receive_registers (registers config.sci_module) data_words_set capacity c

  -- The result, the words stored from `data_words` on, and the channel.
  unfoldable pub receive : Bool → ℕ → Channel H → ℤ × List ℕ × Channel H
  unfolding receive_configured
  receive data_words_set capacity c =
      if is_connected c.runtime.connection_state
      then receive_configured c.hardware_config data_words_set capacity c
      else (failed, [], c)
