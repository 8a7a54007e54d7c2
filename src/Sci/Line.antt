-- ===== src/Sci/Line.antt =====
-- What the SCI transport relies on from a peripheral: the receive FIFO hands over octets in the
-- order in which they arrive, and what is written to the transmit buffer leaves in order.
use dsp_sim_bridge.Common.{ℕ, ◌≡◌, ◌≤◌, Bool, true, false, List, [], ◌∷◌, ◌++◌, length, low_octet}
use dsp_sim_bridge.Sci.Types.{Peripheral, Hardware, Channel}

-- The receive side of a peripheral. `incoming` are the octets that it has yet to hand over: those
-- in the FIFO, then those that the wire will bring.
pub record Inlet {H : Type 0} (hw : Hardware H) (p : Peripheral) : Type 0 where
  pub incoming : H → List ℕ
  pub level : (h : H) → (hw.rxffst p h).0 ≤ length (incoming h)
  pub level_bound : (h : H) → (hw.rxffst p h).0 ≤ 16
  pub level_incoming : (h : H) → incoming (hw.rxffst p h).1 ≡ incoming h
  pub error_incoming : (h : H) → incoming (hw.rxerror p h).1 ≡ incoming h
  pub overflow_incoming : (h : H) → incoming (hw.rxffovf p h).1 ≡ incoming h
  pub read_next :
      (h : H)
      → 1 ≤ length (incoming h)
      → incoming h ≡ low_octet (hw.read_rxbuf p h).0 ∷ incoming (hw.read_rxbuf p h).1

-- The transmit side. `outgoing` are all octets that were written to the transmit buffer; how full
-- the FIFO is may change with every read of its level.
pub record Outlet {H : Type 0} (hw : Hardware H) (p : Peripheral) : Type 0 where
  pub outgoing : H → List ℕ
  pub write_next : (o : ℕ) (h : H) → outgoing (hw.write_txbuf p o h) ≡ outgoing h ++ (o ∷ [])
  pub level_outgoing : (h : H) → outgoing (hw.txffst p h).1 ≡ outgoing h
  pub empty_outgoing : (h : H) → outgoing (hw.txempty p h).1 ≡ outgoing h
  pub pin_outgoing : (gpio level : ℕ) (h : H) → outgoing (hw.write_pin gpio level h) ≡ outgoing h

-- The octets before which a staged octet stands.
abbrev pub behind_staged : Bool → ℕ → List ℕ → List ℕ
behind_staged true octet os = low_octet octet ∷ os
behind_staged false octet os = os

-- The octets that a channel has yet to hand over to the Core: the staged one, then the incoming.
abbrev pub stream :
    {H : Type 0} {hw : Hardware H} {p : Peripheral} → Inlet hw p → Channel H → List ℕ
stream inlet c =
    behind_staged c.runtime.rx_staging_valid c.runtime.rx_staging_octet (inlet.incoming c.hardware)
