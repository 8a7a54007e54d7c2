-- ===== src/Sci/Simulated.antt =====
-- A simulated serial port, which meets what the theorems ask of a peripheral.
use dsp_sim_bridge.Common.{
  ℕ, ◌≡◌, ◌≤◌, refl, Bool, true, false, not, ◌-◌, ◌+◌, some, none, List, [], ◌∷◌, ◌++◌, arith,
  length, low_octet, min,
}
use dsp_sim_bridge.Core.Types.{connected}
use dsp_sim_bridge.Sci.Types.{
  SciDescriptor, Peripheral, Hardware, Channel, module_b, pin_standard, qualification_async,
  active_high,
}
use dsp_sim_bridge.Sci.Line.{Inlet, Outlet}

-- What arrives, what was written, the levels given to pins, how many octets are in the transmit
-- FIFO, and whether one is being shifted out.
pub record Port : Type 0 where
  pub arriving : List ℕ
  pub written : List ℕ
  pub levels : List ℕ
  pub waiting : ℕ
  pub shifting : Bool

abbrev pub first : List ℕ → ℕ
first [] = 0
first (x ∷ xs) = x

abbrev pub others : List ℕ → List ℕ
others [] = []
others (x ∷ xs) = xs

abbrev pub masked : List ℕ → List ℕ
masked [] = []
masked (x ∷ xs) = low_octet x ∷ masked xs

-- By the time after its level was read, up to six octets have left the transmit FIFO.
abbrev pub port_hardware : Hardware Port
port_hardware = record {
  rxerror = λ p h. (false, h);
  rxffovf = λ p h. (false, h);
  rxffst = λ p h. (min 16 (length (masked h.arriving)), h);
  read_rxbuf = λ p h. (first h.arriving, record h { arriving = others h.arriving });
  txffst = λ p h. (h.waiting, record h { waiting = h.waiting - 6 });
  txempty = λ p h. (not h.shifting, record h { shifting = false });
  write_txbuf = λ p o h. record h {
    written = h.written ++ (o ∷ []);
    waiting = h.waiting + 1;
    shifting = true;
  };
  write_swreset = λ p v h. h;
  write_rxffovrclr = λ p v h. h;
  write_rxfiforeset = λ p v h. h;
  write_txfiforeset = λ p v h. h;
  write_pin = λ gpio level h. record h { levels = level ∷ h.levels };
}

pub masked_next :
    (xs : List ℕ) → 1 ≤ length (masked xs) → masked xs ≡ low_octet (first xs) ∷ masked (others xs)
masked_next [] h = absurd (omega arith)
masked_next (x ∷ xs) h = refl

abbrev pub port_inlet : (p : Peripheral) → Inlet port_hardware p
port_inlet p = record {
  incoming = λ h. masked h.arriving;
  level = λ h. omega arith;
  level_bound = λ h. omega arith;
  level_incoming = λ h. refl;
  error_incoming = λ h. refl;
  overflow_incoming = λ h. refl;
  read_next = λ h some_left. masked_next h.arriving some_left;
}

abbrev pub port_outlet : (p : Peripheral) → Outlet port_hardware p
port_outlet p = record {
  outgoing = λ h. h.written;
  write_next = λ o h. refl;
  level_outgoing = λ h. refl;
  empty_outgoing = λ h. refl;
  pin_outgoing = λ gpio level h. refl;
}

-- A port with a control pin.
abbrev pub sample_descriptor : SciDescriptor
sample_descriptor = record {
  sci_module = module_b;
  brr = 53;
  rx = record {
    pin = record { gpio = 19; mux = 2 };
    pin_type = pin_standard;
    qualification = qualification_async;
  };
  tx = record { pin = record { gpio = 18; mux = 2 }; pin_type = pin_standard };
  ctrl = record { gpio = 20; pin_type = pin_standard; tx_active_level = active_high };
}

-- A connected channel with a staged octet and five octets in the FIFO.
abbrev pub sample_channel : Channel Port
sample_channel = record {
  hardware_config = some sample_descriptor;
  runtime = record {
    rx_staging_octet = 1;
    rx_staging_valid = true;
    software_pending = false;
    ctrl_tx_active = false;
    tx_pending_data_words = none;
    tx_pending_total_octets = 0;
    tx_pending_queued_octets = 0;
    connection_state = connected;
    session_cleanup_done = true;
  };
  hardware = record {
    arriving = 2 ∷ 3 ∷ 4 ∷ 5 ∷ [];
    written = [];
    levels = [];
    waiting = 0;
    shifting = false;
  };
}
