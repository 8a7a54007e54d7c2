-- ===== src/Core/Invariant.antt =====
-- What holds of an initialised instance between two calls of `C2837xBlock_Run`.
pub mod Preserved
pub mod Bounds
pub mod Accepted
mod Handling
mod Connecting
mod Sending
pub mod Header
pub mod Receiving
use dsp_sim_bridge.Common.{
  ℕ, ◌+◌, ◌*◌, ◌%◌, ◌^◌, ◌≤◌, ◌<◌, ◌≡◌, ◌≢◌, ◌⊎◌, Bool, true, false, List, length,
}
use dsp_sim_bridge.Wire.{msg_sim_start, msg_input_data, msg_sim_stop}
use dsp_sim_bridge.Core.Types.{
  State, Error, RxPhase, TxDoneAction, ProtocolPhase, Config, Runtime, Block, inert,
  wait_connection, receiving, frame_ready, sending, unlisted, wait_sim_start, sim_running,
  rx_header, rx_payload, tx_done_close, tx_done_enter_sim_running, tx_done_receive_next,
  tx_done_advance_step, error_none,
}
use dsp_sim_bridge.Core.Receive.{is_running}

-- The ranges of the `Uint16` and `Uint32` fields of a configuration.
pub record InRange (c : Config) : Type 0 where
  pub rx_capacity_u32 : c.rx_frame_capacity_octets < 2 ^ 32
  pub tx_capacity_u32 : c.tx_frame_capacity_octets < 2 ^ 32
  pub input_u16 : c.input_payload_octets < 2 ^ 16
  pub output_u16 : c.output_payload_octets < 2 ^ 16
  pub max_u16 : c.max_payload_octets < 2 ^ 16

-- What an accepted configuration guarantees of sizes and timeouts.
pub record Limits (c : Config) : Type 0 where
  pub rx_even : c.rx_frame_capacity_octets % 2 ≡ 0
  pub tx_even : c.tx_frame_capacity_octets % 2 ≡ 0
  pub input_even : c.input_payload_octets % 2 ≡ 0
  pub output_even : c.output_payload_octets % 2 ≡ 0
  pub max_even : c.max_payload_octets % 2 ≡ 0
  pub input_min : 4 ≤ c.input_payload_octets
  pub output_min : 4 ≤ c.output_payload_octets
  pub max_min : 6 ≤ c.max_payload_octets
  pub input_max : c.input_payload_octets ≤ c.max_payload_octets
  pub output_max : c.output_payload_octets ≤ c.max_payload_octets
  pub rx_input : 4 + c.input_payload_octets ≤ c.rx_frame_capacity_octets
  pub rx_start : 10 ≤ c.rx_frame_capacity_octets
  pub tx_output : 4 + c.output_payload_octets ≤ c.tx_frame_capacity_octets
  pub tx_response : 6 ≤ c.tx_frame_capacity_octets
  pub interaction_positive : 0 < c.interaction_timeout_us
  pub interaction_small : c.interaction_timeout_us < 2 ^ 31
  pub transfer_positive : 0 < c.transfer_timeout_us
  pub transfer_small : c.transfer_timeout_us < 2 ^ 31

-- What no state changes: the configuration is sound, the frames are as large as it says, and a
-- latched error is an error.
pub record Sound (c : Config) (rx tx : List ℕ) (latched : Bool) (error : Error) : Type 0 where
  pub in_range : InRange c
  pub limits : Limits c
  pub rx_room : c.rx_frame_capacity_octets ≤ 2 * length rx
  pub tx_room : c.tx_frame_capacity_octets ≤ 2 * length tx
  pub latched_error : latched ≡ true → error ≢ error_none

abbrev pub IsSound : {W : Type 0} → Block W → Type 0
IsSound b =
    Sound b.config b.rx_frame_words b.tx_frame_words b.runtime.primary_error_latched
      b.runtime.last_error

-- An accepted header: its type is allowed in the phase, and its length is the one of the type.
abbrev pub MessageAllowed : Config → ProtocolPhase → ℕ → ℕ → Type 0
MessageAllowed c phase type size =
    (type ≡ msg_sim_start) × (phase ≡ wait_sim_start) × (size ≡ 6)
    ⊎ (type ≡ msg_input_data) × (phase ≡ sim_running) × (size ≡ c.input_payload_octets)
    ⊎ (type ≡ msg_sim_stop) × (phase ≡ sim_running) × (size ≡ 0)

abbrev pub HasMessage : Config → Runtime → Type 0
HasMessage c r = MessageAllowed c r.protocol_phase r.rx_msg_type r.rx_payload_length_octets

-- How far a frame has come, by the octets of the header, those of the payload and the length of
-- the payload, where `Allowed` is what is known of an accepted header.
abbrev pub ReceivingOk : RxPhase → ℕ → ℕ → ℕ → Type 0 → Type 0
ReceivingOk rx_header header_octets octets size Allowed =
    (header_octets < 4) × (header_octets % 2 ≡ 0) × (octets ≡ 0)
ReceivingOk rx_payload header_octets octets size Allowed =
    (header_octets ≡ 4) × (octets < size) × (octets % 2 ≡ 0) × Allowed

-- Why a frame is being sent: by the phase, whether the algorithm runs and whether an error is
-- latched.
abbrev pub ActionOk : TxDoneAction → ProtocolPhase → Bool → Bool → Type 0
ActionOk tx_done_close phase started latched = (latched ≡ true) × (started ≡ is_running phase)
ActionOk tx_done_enter_sim_running phase started latched =
    (phase ≡ wait_sim_start) × (started ≡ true)
ActionOk tx_done_receive_next phase started latched = ⊥
ActionOk tx_done_advance_step phase started latched = (phase ≡ sim_running) × (started ≡ true)

-- The algorithm runs exactly in the phase SIM_RUNNING, but for the response that announces it.
abbrev pub StateOk : State → Config → Runtime → Type 0
StateOk inert c r = ⊥
StateOk wait_connection c r = (r.algorithm_started ≡ false) × (r.protocol_phase ≡ wait_sim_start)
StateOk receiving c r =
    ReceivingOk r.rx_phase r.rx_header_received_octets r.rx_payload_received_octets
      r.rx_payload_length_octets (HasMessage c r)
    × (r.algorithm_started ≡ is_running r.protocol_phase)
StateOk frame_ready c r =
    (r.rx_header_received_octets ≡ 4)
    × (r.rx_payload_received_octets ≡ r.rx_payload_length_octets)
    × HasMessage c r
    × (r.algorithm_started ≡ is_running r.protocol_phase)
StateOk sending c r =
    (r.tx_sent_octets < r.tx_total_octets)
    × (r.tx_sent_octets % 2 ≡ 0)
    × (r.tx_total_octets % 2 ≡ 0)
    × (r.tx_total_octets ≤ c.tx_frame_capacity_octets)
    × ActionOk r.tx_done_action r.protocol_phase r.algorithm_started r.primary_error_latched
StateOk unlisted c r = ⊥

pub record IsValid {W : Type 0} (b : Block W) : Type 0 where
  pub sound : IsSound b
  pub state_ok : StateOk b.runtime.state b.config b.runtime
