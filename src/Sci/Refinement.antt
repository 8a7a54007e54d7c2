-- ===== src/Sci/Refinement.antt =====
-- Every call of `receive` of dsp/src/c2837x_block_sci.c, guards included, and the SCI channel as
-- the source of the Core.
use dsp_sim_bridge.Common.{
  ℕ, ◌≤◌, refl, inl, inr, Bool, Option, none, some, List, [], ℤ, pos, failed, ◌&&◌, ◌==◌, arith,
  if_intro, ap, ◌∙◌, ◌≡◌,
}
use mathlib.Core.Path.{subst}
use dsp_sim_bridge.Sci.Types.{SciDescriptor, Peripheral, Hardware, Channel}
use dsp_sim_bridge.Sci.Session.{has_ctrl, registers, has_rx_error}
use dsp_sim_bridge.Sci.Receive.{
  is_connected, capacity_even, receive_rejected, receive_registers, receive_configured, receive,
}
use dsp_sim_bridge.Sci.Line.{Inlet, behind_staged, stream}
use dsp_sim_bridge.Sci.Conserved.{IsConserved, receive_octets-IsConserved}

-- The octets that a channel with these registers has yet to hand over; none without registers.
abbrev pub registered_stream :
    {H : Type 0} {hw : Hardware H}
    → ((p : Peripheral) → Inlet hw p)
    → Option Peripheral
    → Channel H
    → List ℕ
registered_stream inlets none c = []
registered_stream inlets (some p) c = stream (inlets p) c

abbrev pub channel_registers : Option SciDescriptor → Option Peripheral
channel_registers none = none
channel_registers (some config) = registers config.sci_module

module _ {H : Type 0} where
  -- Every failure.
  rejected-IsConserved :
      (view : Channel H → List ℕ) (capacity : ℕ) (os : List ℕ) (c : Channel H)
      → IsConserved view capacity os (failed, [], c)
  rejected-IsConserved view capacity os c = record { outcome = inl refl }

  -- Nothing stored, nothing changed.
  idle-IsConserved :
      (view : Channel H → List ℕ) (capacity : ℕ) (c : Channel H)
      → IsConserved view capacity (view c) (pos 0, [], c)
  idle-IsConserved view capacity c = record { outcome = inr (refl, omega arith, refl) }

  -- More room does no harm.
  IsConserved-widened :
      (view : Channel H → List ℕ) (few many : ℕ) (os : List ℕ) (out : ℤ × List ℕ × Channel H)
      → few ≤ many
      → IsConserved view few os out
      → IsConserved view many os out
  IsConserved-widened view few many os out le c = record {
    outcome = elim c.outcome [
      | inl bad ↦ inl bad
      | inr (r, room, kept) ↦ inr (r, omega (arith, room, le), kept)
    ];
  }

module _ {H : Type 0} {hw : Hardware H} (inlets : (p : Peripheral) → Inlet hw p) where
  -- Reading the error flags takes nothing from the stream.
  has_rx_error-stream :
      (p : Peripheral) (c : Channel H)
      → stream (inlets p) (record c { hardware = (has_rx_error hw p c.hardware).1 })
        ≡ stream (inlets p) c
  unfolding has_rx_error
  has_rx_error-stream p c =
      let first = (inlets p).error_incoming c.hardware in
      let h1 = (hw.rxerror p c.hardware).1 in
      ap (behind_staged c.runtime.rx_staging_valid c.runtime.rx_staging_octet) (
        if_intro (λ (r : Bool × H). (inlets p).incoming r.1 ≡ (inlets p).incoming c.hardware)
          (hw.rxerror p c.hardware).0 (λ _. first) (λ _. (inlets p).overflow_incoming h1 ∙ first))

  receive_registers-IsConserved :
      (registers_ : Option Peripheral) (data_words_set : Bool) (capacity : ℕ) (c : Channel H)
      → IsConserved
          (registered_stream inlets registers_)
          capacity
          (registered_stream inlets registers_ c)
          (receive_registers hw registers_ data_words_set capacity c)
  unfolding receive_registers receive_rejected
  receive_registers-IsConserved none data_words_set capacity c = rejected-IsConserved _ _ _ _
  receive_registers-IsConserved (some p) data_words_set capacity c =
      let c1 = record c { hardware = (has_rx_error hw p c.hardware).1 } in
      let view = stream (inlets p) in
      let P = IsConserved view capacity (view c1) in
      subst
        (λ os.
          IsConserved view capacity os (receive_registers hw (some p) data_words_set capacity c))
        (has_rx_error-stream p c)
        (if_intro P (has_rx_error hw p c.hardware).0 (λ _. rejected-IsConserved _ _ _ _)
          (λ _.
            if_intro P (capacity_even capacity == 0) (λ _. idle-IsConserved _ _ _)
              (λ some_room.
                if_intro P data_words_set
                  (λ _. IsConserved-widened _ (capacity_even capacity) capacity _ _ (omega arith) (
                    receive_octets-IsConserved (inlets p) (capacity_even capacity) c1
                      (ground (arith, some_room))))
                  (λ _. rejected-IsConserved _ _ _ _))))

  receive_configured-IsConserved :
      (config : Option SciDescriptor) (data_words_set : Bool) (capacity : ℕ) (c : Channel H)
      → let view = registered_stream inlets (channel_registers config) in
        IsConserved view capacity (view c) (receive_configured hw config data_words_set capacity c)
  unfolding receive_configured receive_rejected
  receive_configured-IsConserved none data_words_set capacity c = rejected-IsConserved _ _ _ _
  receive_configured-IsConserved (some config) data_words_set capacity c =
      let view = registered_stream inlets (registers config.sci_module) in
      if_intro (IsConserved view capacity (view c))
        (has_ctrl (some config) && c.runtime.ctrl_tx_active) (λ _. rejected-IsConserved _ _ _ _)
        (λ _. receive_registers-IsConserved (registers config.sci_module) data_words_set capacity c)

  -- A call of `receive` fails, or returns the number of octets of the words that it stored, no more
  -- than there was room for, and those octets, followed by what the channel has yet to hand over
  -- then, are what it had to hand over before: the staged octet and the incoming ones, in order.
  pub receive-IsConserved :
      (data_words_set : Bool) (capacity : ℕ) (c : Channel H)
      → let view = registered_stream inlets (channel_registers c.hardware_config) in
        IsConserved view capacity (view c) (receive hw data_words_set capacity c)
  unfolding receive
  receive-IsConserved data_words_set capacity c =
      let view = registered_stream inlets (channel_registers c.hardware_config) in
      if_intro (IsConserved view capacity (view c)) (is_connected c.runtime.connection_state)
        (λ _. receive_configured-IsConserved c.hardware_config data_words_set capacity c)
        (λ _. rejected-IsConserved _ _ _ _)
