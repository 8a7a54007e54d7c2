-- ===== src/W5300/Simulated.antt =====
-- A simulated W5300 with one established connection, on socket 0, which meets what the theorems
-- ask of the chip, and an algorithm that returns its first input word.
use dsp_sim_bridge.Common.{
  ℕ, zero, suc, ◌+◌, ◌*◌, ◌≡◌, ◌≢◌, ◌≤◌, refl, true, false, List, [], ◌∷◌, ◌++◌, ◌==◌, pos, arith,
  length, get_or, drop, u16, if◌then◌else◌, if_intro, Bool-cases, inl, inr, ap, ==→eq,
}
use dsp_sim_bridge.Core.Run.{zeroed}
use dsp_sim_bridge.Core.Types.{Block}
use dsp_sim_bridge.Core.Simulated.{sample_config}
use dsp_sim_bridge.W5300.Registers.{
  sn_cr, sn_ssr, sn_ir, sn_tx_fsr2, sn_rx_rsr, sn_rx_rsr2, sn_rx_fifor, sn_tx_fifor, cr_recv,
  sock_established,
}
use dsp_sim_bridge.W5300.Hal.{Bus, read_size}
use dsp_sim_bridge.W5300.Socket.{Socket, command_none, phase_idle}
use dsp_sim_bridge.W5300.Inbound.{Inbound}
use dsp_sim_bridge.W5300.Outbound.{Outbound}
use dsp_sim_bridge.W5300.Channel.{TcpChannel, Platform, send_idle, close_idle}
use dsp_sim_bridge.W5300.Device.{Adapter}

-- The words in the receive FIFO, the address and value of every write, the socket's status, the
-- clock, and the words of the algorithm.
pub record Chip : Type 0 where
  pub arrived : List ℕ
  pub writes : List (ℕ × ℕ)
  pub status : ℕ
  pub clock : ℕ
  pub input : List ℕ
  pub output : List ℕ

-- A register other than the receive FIFO. Commands are taken at once, every piece is sent at once.
unfoldable pub register : ℕ → Chip → ℕ
register addr w =
    if addr == sn_ssr 0
    then w.status
    else if addr == sn_ir 0
    then 0x10
    else if addr == sn_tx_fsr2 0
    then 8192
    else if addr == sn_rx_rsr2 0
    then u16 (2 * length w.arrived)
    else 0

unfoldable pub chip_read : ℕ → Chip → ℕ × Chip
chip_read addr w =
    if addr == sn_rx_fifor 0
    then (get_or w.arrived 0 0, record w { arrived = drop 1 w.arrived })
    else (register addr w, w)

unfoldable pub chip_write : ℕ → ℕ → Chip → Chip
chip_write addr value w = record w { writes = w.writes ++ ((addr, value) ∷ []) }

-- The values written to an address.
unfoldable pub values_at : ℕ → List (ℕ × ℕ) → List ℕ
values_at addr [] = []
values_at addr ((a, value) ∷ writes) =
    let rest = values_at addr writes in if a == addr then value ∷ rest else rest

abbrev pub chip_bus : Bus Chip
chip_bus = record { read16 = chip_read; write16 = chip_write; fifo_swap = true }

abbrev pub chip_platform : Platform Chip
chip_platform = record {
  time_us = λ w. (w.clock, record w { clock = w.clock + 1 });
  generation = λ w. 0;
}

abbrev pub chip_adapter : Adapter Chip
chip_adapter = record {
  reset_io = λ w. record w { input = []; output = [] };
  on_start = λ w. (pos 0, w);
  decode_input = λ words w. record w { input = words };
  on_step = λ w. (pos 0, record w { output = get_or w.input 0 0 ∷ [] });
  encode_output = λ w. w.output;
  on_stop = λ w. w;
}

-- Only socket 0 is connected.
abbrev pub chip_incoming : ℕ → Chip → List ℕ
chip_incoming zero w = w.arrived
chip_incoming (suc n) w = []

head_and_rest : (l : List ℕ) → 1 ≤ length l → l ≡ get_or l 0 0 ∷ drop 1 l
head_and_rest [] some_left = absurd (omega arith)
head_and_rest (x ∷ l) some_left = refl

pub chip_read_next :
    (sn : ℕ) (w : Chip)
    → 1 ≤ length (chip_incoming sn w)
    → chip_incoming sn w
      ≡ (chip_read (sn_rx_fifor sn) w).0 ∷ chip_incoming sn (chip_read (sn_rx_fifor sn) w).1
unfolding chip_read
chip_read_next zero w some_left = head_and_rest w.arrived some_left
chip_read_next (suc n) w some_left = absurd (omega arith)

pub chip_read_other :
    (sn addr : ℕ) (w : Chip)
    → addr ≢ sn_rx_fifor sn
    → chip_incoming sn (chip_read addr w).1 ≡ chip_incoming sn w
unfolding chip_read
chip_read_other zero addr w other =
    if_intro (λ (out : ℕ × Chip). out.1.arrived ≡ w.arrived) (addr == sn_rx_fifor 0)
      (λ t. absurd (other (==→eq addr (sn_rx_fifor 0) t))) (λ _. refl)
chip_read_other (suc n) addr w other = refl

pub chip_command_recv :
    (sn : ℕ) (w : Chip) → chip_incoming sn (chip_write (sn_cr sn) cr_recv w) ≡ chip_incoming sn w
unfolding chip_write
chip_command_recv zero w = refl
chip_command_recv (suc n) w = refl

-- A register of another socket.
register_other : (addr : ℕ) (w : Chip) → sn_rx_rsr 1 ≤ addr → (chip_read addr w ≡ (0, w))
unfolding chip_read register
register_other addr w other =
    let e1 : (addr == sn_rx_fifor 0) ≡ false = ground arith in
    let e2 : (addr == sn_ssr 0) ≡ false = ground arith in
    let e3 : (addr == sn_ir 0) ≡ false = ground arith in
    let e4 : (addr == sn_tx_fsr2 0) ≡ false = ground arith in
    let e5 : (addr == sn_rx_rsr2 0) ≡ false = ground arith in
    rw e1 (rw e2 (rw e3 (rw e4 (rw e5 refl))))

pub chip_size_arrived :
    (sn : ℕ) (w : Chip)
    → (read_size chip_bus (sn_rx_rsr sn) (sn_rx_rsr2 sn) w).0 ≤ 2 * length (chip_incoming sn w)
unfolding read_size chip_read register
chip_size_arrived zero w = omega arith
chip_size_arrived (suc n) w =
    let high = register_other (sn_rx_rsr (suc n)) w (omega arith) in
    let low = register_other (sn_rx_rsr2 (suc n)) w (omega arith) in rw high (rw low (omega arith))

abbrev pub chip_inbound : (sn : ℕ) → Inbound chip_bus sn
chip_inbound sn = record {
  incoming = chip_incoming sn;
  read_next = chip_read_next sn;
  read_other = chip_read_other sn;
  command_recv = chip_command_recv sn;
  size_arrived = λ w _. chip_size_arrived sn w;
}

pub values_at-same :
    (addr value : ℕ) (writes : List (ℕ × ℕ))
    → values_at addr (writes ++ ((addr, value) ∷ [])) ≡ values_at addr writes ++ (value ∷ [])
unfolding values_at
values_at-same addr value [] = let same : (addr == addr) ≡ true = ground arith in rw same refl
values_at-same addr value ((a, v) ∷ writes) =
    let rest = values_at-same addr value writes in
    elim (Bool-cases (a == addr)) [ inl t ↦ rw t (ap (λ l. v ∷ l) rest) | inr f ↦ rw f rest ]

pub values_at-other :
    (addr a value : ℕ) (writes : List (ℕ × ℕ))
    → a ≢ addr
    → values_at addr (writes ++ ((a, value) ∷ [])) ≡ values_at addr writes
unfolding values_at
values_at-other addr a value [] other =
    let differ : (a == addr) ≡ false = ground (arith, other) in rw differ refl
values_at-other addr a value ((b, v) ∷ writes) other =
    let rest = values_at-other addr a value writes other in
    elim (Bool-cases (b == addr)) [ inl t ↦ rw t (ap (λ l. v ∷ l) rest) | inr f ↦ rw f rest ]

pub chip_read-writes : (addr : ℕ) (w : Chip) → (chip_read addr w).1.writes ≡ w.writes
unfolding chip_read
chip_read-writes addr w =
    if_intro (λ (out : ℕ × Chip). out.1.writes ≡ w.writes) (addr == sn_rx_fifor 0) (λ _. refl)
      (λ _. refl)

abbrev pub chip_outbound : (sn : ℕ) → Outbound chip_bus sn
unfolding chip_write
chip_outbound sn = record {
  outgoing = λ w. values_at (sn_tx_fifor sn) w.writes;
  write_fifo = λ value w. values_at-same (sn_tx_fifor sn) value w.writes;
  write_other = λ addr value w other. values_at-other (sn_tx_fifor sn) addr value w.writes other;
  read_any = λ addr w. ap (λ l. values_at (sn_tx_fifor sn) l) (chip_read-writes addr w);
}

abbrev pub chip_clock_quiet :
    (sn : ℕ) (w : Chip)
    → (chip_inbound sn).incoming (chip_platform.time_us w).1 ≡ (chip_inbound sn).incoming w
chip_clock_quiet zero w = refl
chip_clock_quiet (suc n) w = refl

pub chip_writes_quiet :
    (sn : ℕ) (w : Chip)
    → (chip_outbound sn).outgoing (chip_platform.time_us w).1 ≡ (chip_outbound sn).outgoing w
unfolding chip_outbound
chip_writes_quiet sn w = refl

-- Socket 0 with no command pending.
abbrev pub sample_socket : Socket
sample_socket = record {
  sn = 0;
  tx_mem_size = 8192;
  rx_mem_size = 8192;
  pending_command = command_none;
  command_phase = phase_idle;
  udp_rx_datagram_active = 0;
  udp_rx_data_remaining = 0;
  udp_rx_residual_byte = 0;
  udp_rx_residual_valid = 0;
}

abbrev pub sample_channel : TcpChannel
sample_channel = record {
  socket = sample_socket;
  tcp_port = 5000;
  time_us_set = true;
  close_timeout_us = 1_000_000;
  connected = false;
  send_state = send_idle;
  pending_octets = 0;
  faulted = false;
  close_state = close_idle;
  close_start_us = 0;
  observed_platform_generation = 0;
}

-- A connected chip, and the words that arrive.
abbrev pub sample_chip : List ℕ → Chip
sample_chip arrived = record {
  arrived = arrived;
  writes = [];
  status = sock_established;
  clock = 0;
  input = [];
  output = [];
}

-- The instance of the Core over the channel, as the program starts.
abbrev pub sample_block : List ℕ → Block (TcpChannel × Chip)
sample_block arrived = record {
  config = sample_config;
  runtime = zeroed;
  rx_frame_words = 0 ∷ 0 ∷ 0 ∷ 0 ∷ 0 ∷ 0 ∷ 0 ∷ [];
  tx_frame_words = 0 ∷ 0 ∷ 0 ∷ 0 ∷ 0 ∷ [];
  world = (sample_channel, sample_chip arrived);
}
