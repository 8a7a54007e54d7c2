-- ===== src/Sci/Delivered.antt =====
-- `send` of dsp/src/c2837x_block_sci.c writes the octets of its frame in order, each once.
use dsp_sim_bridge.Common.{
  ℕ, zero, suc, ◌+◌, ◌-◌, ◌/◌, ◌%◌, ◌^◌, ◌≡◌, ◌≤◌, ◌<◌, refl, sym, ap, ◌∙◌, ◌⊎◌, inl, inr, true,
  some, List, [], ◌∷◌, ◌++◌, ℤ, pos, ◌==◌, ==→eq, ltb, add32, sub32, arith, length, octets,
  is_negative, is_odd, if_intro, take, drop, get_or, get_or-drop,
}
use mathlib.Core.List.{append_assoc}
use dsp_sim_bridge.Sci.Types.{
  CtrlTxActiveLevel, SciDescriptor, Peripheral, Hardware, Channel, tx_fifo_depth,
}
use dsp_sim_bridge.Sci.Session.{has_ctrl, drive_ctrl, ctrl_rx_level}
use dsp_sim_bridge.Sci.Send.{
  octet_at, queue_octets, write_octets, fill_fifo, confirm_pending, advance_pending, send_rejected,
}
use dsp_sim_bridge.Sci.Line.{Outlet}

get_or-octets : (ws : List ℕ) (i : ℕ) → get_or (octets ws) i 0 ≡ octet_at ws 0 i
unfolding octet_at
get_or-octets [] i = if_intro (λ o. 0 ≡ o) (is_odd i) (λ _. refl) (λ _. refl)
get_or-octets (w ∷ ws) zero = refl
get_or-octets (w ∷ ws) (suc zero) = refl
get_or-octets (w ∷ ws) (suc (suc i)) =
    let half : 0 + suc (suc i) / 2 ≡ suc (0 + i / 2) = omega arith in
    let parity : suc (suc i) % 2 ≡ i % 2 = omega arith in rw (half, parity) (get_or-octets ws i)

take-suc :
    (i : ℕ) (xs : List ℕ) → i < length xs → take (suc i) xs ≡ take i xs ++ (get_or xs i 0 ∷ [])
take-suc i [] h = absurd (omega arith)
take-suc zero (x ∷ xs) h = refl
take-suc (suc i) (x ∷ xs) h = ap (λ l. x ∷ l) (take-suc i xs (omega arith))

-- The octets of the frame from the word `at` on.
abbrev pub wire_octets : List ℕ → ℕ → List ℕ
wire_octets frame at = octets (drop at frame)

get_or-wire_octets :
    (frame : List ℕ) (at i : ℕ) → get_or (wire_octets frame at) i 0 ≡ octet_at frame at i
unfolding octet_at
get_or-wire_octets frame at i =
    let zero_more : 0 + i / 2 ≡ i / 2 = omega arith in
    get_or-octets (drop at frame) i ∙ rw (zero_more, get_or-drop at (i / 2) frame 0) refl

module _ {H : Type 0} {hw : Hardware H} {p : Peripheral} (outlet : Outlet hw p) where
  -- The `for` loop continues the frame where it was.
  queue_octets-outgoing :
      (frame : List ℕ) (at offset count : ℕ) (base : List ℕ) (h : H)
      → offset + count ≤ length (wire_octets frame at)
      → offset + count < 2 ^ 32
      → outlet.outgoing h ≡ base ++ take offset (wire_octets frame at)
      → outlet.outgoing (queue_octets hw p frame at offset count h)
        ≡ base ++ take (offset + count) (wire_octets frame at)
  unfolding queue_octets
  queue_octets-outgoing frame at offset zero base h fits small e =
      let sum : offset + 0 ≡ offset = omega arith in rw sum e
  queue_octets-outgoing frame at offset (suc count) base h fits small e =
      let next : add32 offset 1 ≡ suc offset = omega arith in
      let sum : offset + suc count ≡ suc offset + count = omega arith in
      let o = octet_at frame at offset in
      let F = wire_octets frame at in
      let grown : take (suc offset) F ≡ take offset F ++ (o ∷ []) =
        rw (sym (get_or-wire_octets frame at offset)) (take-suc offset F (omega arith)) in
      let written : outlet.outgoing (hw.write_txbuf p o h) ≡ base ++ take (suc offset) F =
        outlet.write_next o h
        ∙ ap (λ l. l ++ (o ∷ [])) e
        ∙ append_assoc base (take offset F) (o ∷ [])
        ∙ ap (λ l. base ++ l) (sym grown) in
      rw (next, sum)
        (queue_octets-outgoing frame at (suc offset) count base (hw.write_txbuf p o h) (omega arith)
          (omega arith) written)

  -- The first `queued` octets of the frame follow `base` on the wire, and the rest is pending.
  pub record IsQueued (config : SciDescriptor) (frame : List ℕ) (at total : ℕ) (base : List ℕ)
      (c : Channel H) : Type 0 where
    pub config_kept : c.hardware_config ≡ some config
    pub pending : c.runtime.software_pending ≡ true
    pub words_kept : c.runtime.tx_pending_data_words ≡ some at
    pub total_kept : c.runtime.tx_pending_total_octets ≡ total
    pub within : c.runtime.tx_pending_queued_octets ≤ total
    pub queued :
        outlet.outgoing c.hardware
        ≡ base ++ take c.runtime.tx_pending_queued_octets (wire_octets frame at)

  -- The outcome of a call of `send`: it fails, or the frame stays pending, or it was confirmed,
  -- and then all its octets were written.
  pub record IsAdvanced (config : SciDescriptor) (frame : List ℕ) (at total : ℕ) (base : List ℕ)
      (out : ℤ × Channel H) : Type 0 where
    pub outcome :
        (is_negative out.0 ≡ true)
        ⊎ ((out.0 ≡ pos 0) × IsQueued config frame at total base out.1)
        ⊎ ((out.0 ≡ pos total)
            × (outlet.outgoing out.1.hardware ≡ base ++ take total (wire_octets frame at)))

  pub drive_ctrl-outgoing :
      (level : CtrlTxActiveLevel → ℕ) (config : SciDescriptor) (h : H)
      → outlet.outgoing (drive_ctrl hw level (some config) h) ≡ outlet.outgoing h
  unfolding drive_ctrl
  drive_ctrl-outgoing level config h =
      if_intro (λ h1. outlet.outgoing h1 ≡ outlet.outgoing h) (has_ctrl (some config))
        (λ _. outlet.pin_outgoing config.ctrl.gpio (level config.ctrl.tx_active_level) h)
        (λ _. refl)

  -- A pass never writes more than the FIFO has room for, nor more than remains.
  write_octets_bound :
      (occupied : ℕ) (c : Channel H)
      → (write_octets hw occupied c ≤ tx_fifo_depth - occupied)
        × (write_octets hw occupied c
            ≤ sub32 c.runtime.tx_pending_total_octets c.runtime.tx_pending_queued_octets)
  unfolding write_octets
  write_octets_bound occupied c =
      let slots = tx_fifo_depth - occupied in
      let remaining = sub32 c.runtime.tx_pending_total_octets c.runtime.tx_pending_queued_octets in
      if_intro (λ n. (n ≤ slots) × (n ≤ remaining)) (ltb slots remaining)
        (λ t. (omega arith, ground arith)) (λ f. (ground arith, omega arith))

  module _ (config : SciDescriptor) (frame : List ℕ) (at total : ℕ) (base : List ℕ)
      (small : total < 2 ^ 32) (fits : total ≤ length (wire_octets frame at)) where
    pub rejected-IsAdvanced :
        (c : Channel H) → IsAdvanced config frame at total base (send_rejected hw c)
    unfolding send_rejected
    rejected-IsAdvanced c = record { outcome = inl refl }

    -- Reading a status register leaves what is queued.
    IsQueued-read :
        (c : Channel H) (h : H)
        → outlet.outgoing h ≡ outlet.outgoing c.hardware
        → IsQueued config frame at total base c
        → IsQueued config frame at total base (record c { hardware = h })
    IsQueued-read c h same q = record {
      config_kept = q.config_kept;
      pending = q.pending;
      words_kept = q.words_kept;
      total_kept = q.total_kept;
      within = q.within;
      queued = same ∙ q.queued;
    }

    fill_fifo-IsAdvanced :
        (c : Channel H)
        → IsQueued config frame at total base c
        → IsAdvanced config frame at total base (fill_fifo hw p frame c)
    unfolding fill_fifo
    fill_fifo-IsAdvanced c q =
        let (occupied, h1) = hw.txffst p c.hardware in
        let count = write_octets hw occupied c in
        if_intro (IsAdvanced config frame at total base) (ltb tx_fifo_depth occupied)
          (λ _. rejected-IsAdvanced (record c { hardware = h1 }))
          (λ _.
            let few = (write_octets_bound occupied c).1 in
            let sum : add32 c.runtime.tx_pending_queued_octets count
                ≡ c.runtime.tx_pending_queued_octets + count =
              omega (arith, few, q.within, q.total_kept, small) in
            record {
              outcome = inr (
                  inl (
                    refl,
                    record {
                      config_kept = q.config_kept;
                      pending = q.pending;
                      words_kept = q.words_kept;
                      total_kept = q.total_kept;
                      within = omega (arith, few, q.within, q.total_kept, small);
                      queued =
                          rw (q.words_kept, sum)
                            (queue_octets-outgoing frame at c.runtime.tx_pending_queued_octets count
                              base h1 (omega (arith, few, q.within, q.total_kept, small, fits))
                              (omega (arith, few, q.within, q.total_kept, small))
                              (outlet.level_outgoing c.hardware ∙ q.queued));
                    },
                  ));
            })

    confirm_pending-IsAdvanced :
        (c : Channel H)
        → IsQueued config frame at total base c
        → c.runtime.tx_pending_queued_octets ≡ total
        → IsAdvanced config frame at total base (confirm_pending hw config p c)
    unfolding confirm_pending
    confirm_pending-IsAdvanced c q all =
        let (occupied, h1) = hw.txffst p c.hardware in
        let (empty, h2) = hw.txempty p h1 in
        let level = outlet.level_outgoing c.hardware in
        let levels = outlet.empty_outgoing h1 ∙ level in
        let A = IsAdvanced config frame at total base in
        if_intro A (ltb tx_fifo_depth occupied)
          (λ _. rejected-IsAdvanced (record c { hardware = h1 }))
          (λ _.
            if_intro A (occupied == 0)
              (λ _.
                if_intro A empty
                  (λ _. record {
                    outcome = inr (
                        inr (
                          ap pos q.total_kept,
                          drive_ctrl-outgoing ctrl_rx_level config h2
                              ∙ levels
                              ∙ rw (sym all) q.queued,
                        ));
                  })
                  (λ _. record { outcome = inr (inl (refl, IsQueued-read c h2 levels q)) }))
              (λ _. record { outcome = inr (inl (refl, IsQueued-read c h1 level q)) }))

    pub advance_pending-IsAdvanced :
        (c : Channel H)
        → IsQueued config frame at total base c
        → IsAdvanced config frame at total base (advance_pending hw config p frame c)
    unfolding advance_pending
    advance_pending-IsAdvanced c q =
        if_intro (IsAdvanced config frame at total base)
          (c.runtime.tx_pending_queued_octets == c.runtime.tx_pending_total_octets)
          (λ t. confirm_pending-IsAdvanced c q (
            ==→eq c.runtime.tx_pending_queued_octets c.runtime.tx_pending_total_octets t
            ∙ q.total_kept))
          (λ _. fill_fifo-IsAdvanced c q)
