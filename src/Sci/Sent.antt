-- ===== src/Sci/Sent.antt =====
-- A frame that `send` of dsp/src/c2837x_block_sci.c confirms was written whole, over however
-- many calls.
use dsp_sim_bridge.Common.{
  ℕ, ◌^◌, ◌≡◌, ◌≤◌, ◌<◌, refl, sym, ap, ◌∙◌, inl, inr, false, some, List, [], ◌++◌, ℤ, pos, negsuc,
  is_negative, ◌||◌, ◌==◌, arith, length, is_odd, if_intro, absurd_bool, take,
}
use mathlib.Core.Path.{subst⁻¹}
use mathlib.Core.List.{append-nil}
use dsp_sim_bridge.Sci.Types.{SciDescriptor, Peripheral, Hardware, Channel}
use dsp_sim_bridge.Sci.Session.{has_ctrl, registers, ctrl_tx_level}
use dsp_sim_bridge.Sci.Receive.{is_connected}
use dsp_sim_bridge.Sci.Send.{
  is_null, pending_mismatch, pending_corrupt, ctrl_inconsistent, make_pending, begin_pending,
  send_registers, send_configured, send_connected, send,
}
use dsp_sim_bridge.Sci.Line.{Outlet}
use dsp_sim_bridge.Sci.Delivered.{
  IsQueued, IsAdvanced, wire_octets, drive_ctrl-outgoing, rejected-IsAdvanced,
  advance_pending-IsAdvanced,
}

pos_value : ℤ → ℕ
pos_value (pos n) = n
pos_value (negsuc n) = 0

pos-injective : {m n : ℕ} → pos m ≡ pos n → m ≡ n
unfolding pos_value
pos-injective e = ap pos_value e

module _ {H : Type 0} {hw : Hardware H} {p : Peripheral} (outlet : Outlet hw p)
    (config : SciDescriptor) (of_config : registers config.sci_module ≡ some p) (frame : List ℕ)
    (at total : ℕ) (base : List ℕ) (small : total < 2 ^ 32)
    (fits : total ≤ length (wire_octets frame at)) where
  -- A call with nothing pending.
  record IsIdle (c : Channel H) : Type 0 where
    config_kept : c.hardware_config ≡ some config
    idle : c.runtime.software_pending ≡ false
    written : outlet.outgoing c.hardware ≡ base

  begin_pending-IsAdvanced :
      (c : Channel H)
      → IsIdle c
      → IsAdvanced outlet config frame at total base
          (begin_pending hw config p frame (some at) total c)
  unfolding begin_pending make_pending
  begin_pending-IsAdvanced c i =
      let start : base ≡ base ++ [] = sym (append-nil base) in
      if_intro (IsAdvanced outlet config frame at total base) (has_ctrl (some config))
        (λ _. record {
          outcome = inr (
              inl (
                refl,
                record {
                  config_kept = i.config_kept;
                  pending = refl;
                  words_kept = refl;
                  total_kept = refl;
                  within = omega arith;
                  queued =
                      drive_ctrl-outgoing outlet ctrl_tx_level config c.hardware
                      ∙ i.written
                      ∙ start;
                },
              ));
        })
        (λ _. advance_pending-IsAdvanced outlet config frame at total base small fits _ (record {
          config_kept = i.config_kept;
          pending = refl;
          words_kept = refl;
          total_kept = refl;
          within = omega arith;
          queued = i.written ∙ start;
        }))

  -- What both cases share: the guards on the configuration, its registers and the control pin.
  send_configured-IsAdvanced :
      (c : Channel H)
      → c.hardware_config ≡ some config
      → IsAdvanced outlet config frame at total base
          (send_registers hw config (some p) frame (some at) total c)
      → IsAdvanced outlet config frame at total base
          (send_configured hw c.hardware_config frame (some at) total c)
  unfolding send_configured
  send_configured-IsAdvanced c e a =
      subst⁻¹
        (λ o.
          IsAdvanced outlet config frame at total base
            (send_configured hw o frame (some at) total c))
        e
        (if_intro (IsAdvanced outlet config frame at total base)
          (ctrl_inconsistent (has_ctrl (some config)) c.runtime)
          (λ _. rejected-IsAdvanced outlet config frame at total base small fits c)
          (λ _.
            subst⁻¹
              (λ r.
                IsAdvanced outlet config frame at total base
                  (send_registers hw config r frame (some at) total c))
              of_config a))

  -- A call while the frame is pending.
  send_pending-IsAdvanced :
      (c : Channel H)
      → IsQueued outlet config frame at total base c
      → IsAdvanced outlet config frame at total base (send hw frame (some at) total c)
  unfolding send send_connected send_registers
  send_pending-IsAdvanced c q =
      let reject = rejected-IsAdvanced outlet config frame at total base small fits in
      let A = IsAdvanced outlet config frame at total base in
      if_intro A (is_connected c.runtime.connection_state)
        (λ _.
          if_intro A c.runtime.software_pending
            (λ _.
              if_intro A (pending_mismatch (some at) total c.runtime || pending_corrupt c.runtime)
                (λ _. reject c)
                (λ _. send_configured-IsAdvanced c q.config_kept (
                  if_intro A c.runtime.software_pending
                    (λ _.
                      advance_pending-IsAdvanced outlet config frame at total base small fits c q)
                    (λ f. absurd_bool q.pending f))))
            (λ f. absurd_bool q.pending f))
        (λ _. record { outcome = inl refl })

  -- A call with nothing pending.
  send_idle-IsAdvanced :
      (c : Channel H)
      → 0 < total
      → IsIdle c
      → IsAdvanced outlet config frame at total base (send hw frame (some at) total c)
  unfolding send send_connected send_registers
  send_idle-IsAdvanced c some_octets i =
      let reject = rejected-IsAdvanced outlet config frame at total base small fits in
      let A = IsAdvanced outlet config frame at total base in
      if_intro A (is_connected c.runtime.connection_state)
        (λ _.
          if_intro A c.runtime.software_pending (λ t. absurd_bool t i.idle)
            (λ _.
              if_intro A (total == 0) (λ t. absurd (ground (arith, t, some_octets)))
                (λ _.
                  if_intro A (is_null (some at) || is_odd total) (λ _. reject c)
                    (λ _. send_configured-IsAdvanced c i.config_kept (
                      if_intro A c.runtime.software_pending (λ t. absurd_bool t i.idle)
                        (λ _. begin_pending-IsAdvanced c i))))))
        (λ _. record { outcome = inl refl })

-- Calls of `send` with the same frame: each returns 0 but the last, which confirms `total` octets.
pub data Confirmed {H : Type 0} (hw : Hardware H) (frame : List ℕ) (at total : ℕ)
    : Channel H → Channel H → Type 0 where
  confirmed :
      (c : Channel H)
      → (send hw frame (some at) total c).0 ≡ pos total
      → Confirmed hw frame at total c (send hw frame (some at) total c).1
  waited :
      (c : Channel H) {c' : Channel H}
      → (send hw frame (some at) total c).0 ≡ pos 0
      → Confirmed hw frame at total (send hw frame (some at) total c).1 c'
      → Confirmed hw frame at total c c'

module _ {H : Type 0} {hw : Hardware H} {p : Peripheral} (outlet : Outlet hw p)
    (config : SciDescriptor) (of_config : registers config.sci_module ≡ some p) (frame : List ℕ)
    (at total : ℕ) (small : total < 2 ^ 32) (fits : total ≤ length (wire_octets frame at))
    (some_octets : 0 < total) where
  -- The call that confirms, or one that waits: which of the outcomes it had.
  confirmed-written :
      (base : List ℕ) (out : ℤ × Channel H)
      → out.0 ≡ pos total
      → IsAdvanced outlet config frame at total base out
      → outlet.outgoing out.1.hardware ≡ base ++ take total (wire_octets frame at)
  confirmed-written base out e a = elim a.outcome [
    | inl bad ↦ absurd_bool bad (ap is_negative e)
    | inr (inl (nothing, q)) ↦ absurd (ground (arith, some_octets, pos-injective (sym e ∙ nothing)))
    | inr (inr (r, w)) ↦ w
  ]

  waited-IsQueued :
      (base : List ℕ) (out : ℤ × Channel H)
      → out.0 ≡ pos 0
      → IsAdvanced outlet config frame at total base out
      → IsQueued outlet config frame at total base out.1
  waited-IsQueued base out e a = elim a.outcome [
    | inl bad ↦ absurd_bool bad (ap is_negative e)
    | inr (inl (nothing, q)) ↦ q
    | inr (inr (r, w)) ↦ absurd (ground (arith, some_octets, pos-injective (sym r ∙ e)))
  ]

  pending-sent :
      (base : List ℕ) {c c' : Channel H}
      → Confirmed hw frame at total c c'
      → IsQueued outlet config frame at total base c
      → outlet.outgoing c'.hardware ≡ base ++ take total (wire_octets frame at)
  pending-sent base (confirmed c e) q =
      confirmed-written base _ e
        (send_pending-IsAdvanced outlet config of_config frame at total base small fits c q)
  pending-sent base (waited c e rest) q = pending-sent base rest (
      waited-IsQueued base _ e
        (send_pending-IsAdvanced outlet config of_config frame at total base small fits c q))

  -- Calls of `send` with one frame, on a channel that has nothing pending, of which the last
  -- confirms the frame, have written the octets of the frame, each once and in order, whatever levels
  -- of the FIFO each call has read: full, partly drained or empty.
  pub frame_sent :
      {c c' : Channel H}
      → c.hardware_config ≡ some config
      → c.runtime.software_pending ≡ false
      → Confirmed hw frame at total c c'
      → outlet.outgoing c'.hardware
        ≡ outlet.outgoing c.hardware ++ take total (wire_octets frame at)
  frame_sent kept idle (confirmed c e) = confirmed-written (outlet.outgoing c.hardware) _ e (
      send_idle-IsAdvanced outlet config of_config frame at total (outlet.outgoing c.hardware) small
        fits c some_octets (record { config_kept = kept; idle = idle; written = refl }))
  frame_sent kept idle (waited c e rest) = pending-sent (outlet.outgoing c.hardware) rest (
      waited-IsQueued (outlet.outgoing c.hardware) _ e (
        send_idle-IsAdvanced outlet config of_config frame at total (outlet.outgoing c.hardware)
          small fits c some_octets (record { config_kept = kept; idle = idle; written = refl })))
