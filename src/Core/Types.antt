-- ===== src/Core/Types.antt =====
-- The data of the protocol Core: dsp/src/c2837x_block_internal.h, dsp/inc/c2837x_block.h,
-- dsp/inc/c2837x_block_iodevice.h and dsp/src/c2837x_block_config_internal.h.
use dsp_sim_bridge.Common.{ℕ, Bool, List, ℤ}

-- `C2837xBlock_State`; `unlisted` stands for any value that the enumeration does not name, which
-- a memory fault can leave in the field.
pub data State : Type 0 where
  inert wait_connection receiving frame_ready sending unlisted : State

pub data ProtocolPhase : Type 0 where
  wait_sim_start sim_running : ProtocolPhase

pub data RxPhase : Type 0 where
  rx_header rx_payload : RxPhase

pub data WaitKind : Type 0 where
  wait_transfer wait_interaction : WaitKind

pub data TxDoneAction : Type 0 where
  tx_done_close tx_done_enter_sim_running tx_done_receive_next tx_done_advance_step : TxDoneAction

-- `C2837xBlock_Error`
pub data Error : Type 0 where
  error_none invalid_argument protocol timeout disconnected iodevice : Error
  algorithm_start algorithm_step internal : Error

pub data HeaderResult : Type 0 where
  header_valid header_unknown_type header_state_error header_length_error : HeaderResult

pub data TerminationKind : Type 0 where
  terminate_error terminate_normal : TerminationKind

-- `C2837xBlock_IoConnectionState`; `connection_error` stands for unlisted values too, which the
-- Core treats alike.
pub data IoConnectionState : Type 0 where
  closed open_ listening connected peer_closed connection_error : IoConnectionState

-- `C2837xBlock_Runtime`. A `Uint16` field that is only ever given 0u or 1u is a `Bool`.
pub record Runtime : Type 0 where
  pub state : State
  pub protocol_phase : ProtocolPhase
  pub rx_phase : RxPhase
  pub rx_header_received_octets : ℕ
  pub rx_msg_type : ℕ
  pub rx_payload_length_octets : ℕ
  pub rx_payload_received_octets : ℕ
  pub tx_total_octets : ℕ
  pub tx_sent_octets : ℕ
  pub expected_step_index : ℕ
  pub progress_start_us : ℕ
  pub receive_wait_kind : WaitKind
  pub algorithm_started : Bool
  pub close_pending : Bool
  pub primary_error_latched : Bool
  pub normal_end_pending : Bool
  pub tx_done_action : TxDoneAction
  pub response_error : ℕ
  pub last_error : Error

-- Which pointers of the configuration are set: each field says that the pointer is not NULL.
pub record OpsPointers : Type 0 where
  pub channel_init : Bool
  pub open_op : Bool
  pub listen : Bool
  pub get_connection_state : Bool
  pub receive : Bool
  pub send : Bool
  pub close : Bool

pub record AdapterPointers : Type 0 where
  pub reset_io : Bool
  pub on_start : Bool
  pub decode_input : Bool
  pub on_step : Bool
  pub encode_output : Bool
  pub on_stop : Bool

-- `C2837xBlock_Config`. The objects behind its pointers are the frames of `Block` and the
-- callbacks of `Ops`.
pub record Config : Type 0 where
  pub config_set : Bool
  pub iodevice_ops_set : Bool
  pub iodevice_channel_set : Bool
  pub rx_frame_words_set : Bool
  pub tx_frame_words_set : Bool
  pub input_object_set : Bool
  pub output_object_set : Bool
  pub algorithm_set : Bool
  pub time_us_set : Bool
  pub ops_set : OpsPointers
  pub adapter_set : AdapterPointers
  pub rx_frame_capacity_octets : ℕ
  pub tx_frame_capacity_octets : ℕ
  pub protocol_version : ℕ
  pub interface_hash : ℕ
  pub input_payload_octets : ℕ
  pub output_payload_octets : ℕ
  pub max_payload_octets : ℕ
  pub interaction_timeout_us : ℕ
  pub transfer_timeout_us : ℕ

-- What the Core calls through pointers: `C2837xBlock_IoDeviceOps`, `C2837xBlock_AlgorithmAdapter`
-- and the clock. `W` is all the state that they act on: the channel and its hardware, the
-- algorithm's context with its input and output objects, the timer.
pub record Ops (W : Type 0) : Type 0 where
  pub channel_init : W → W
  pub open_op : W → ℤ × W
  pub listen : W → ℤ × W
  pub get_connection_state : W → IoConnectionState × W
  -- The capacity in octets; the words are what the device stores from `data_words` on.
  pub receive : ℕ → W → ℤ × List ℕ × W
  -- The transmit frame, the word index of `data_words` in it, and the count of octets.
  pub send : List ℕ → ℕ → ℕ → W → ℤ × W
  pub close : W → ℤ × W
  pub reset_io : W → W
  pub on_start : W → ℤ × W
  pub decode_input : List ℕ → W → W
  pub on_step : W → ℤ × W
  -- The words that it stores from `user_data_words` on.
  pub encode_output : W → List ℕ
  pub on_stop : W → W
  pub time_us : W → ℕ × W

-- `C2837xBlock` with the two frame buffers of its configuration and the outside world.
pub record Block (W : Type 0) : Type 0 where
  pub config : Config
  pub runtime : Runtime
  pub rx_frame_words : List ℕ
  pub tx_frame_words : List ℕ
  pub world : W
