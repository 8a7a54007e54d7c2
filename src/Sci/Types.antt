-- ===== src/Sci/Types.antt =====
-- The data of the SCI transport: dsp/inc/c2837x_block_sci.h, and the registers that it uses.
use dsp_sim_bridge.Common.{ℕ, Bool, Option}
use dsp_sim_bridge.Core.Types.{IoConnectionState}

-- `C2837xBlock_SciModule`; `module_unlisted` stands for values that the enumeration does not name.
pub data SciModule : Type 0 where
  module_a module_b module_c module_d module_unlisted : SciModule

pub data SciPinType : Type 0 where
  pin_standard pin_pullup : SciPinType

pub data SciQualification : Type 0 where
  qualification_sync qualification_async : SciQualification

pub data CtrlTxActiveLevel : Type 0 where
  active_low active_high : CtrlTxActiveLevel

pub record PinMuxDescriptor : Type 0 where
  pub gpio : ℕ
  pub mux : ℕ

pub record RxEndpoint : Type 0 where
  pub pin : PinMuxDescriptor
  pub pin_type : SciPinType
  pub qualification : SciQualification

pub record TxEndpoint : Type 0 where
  pub pin : PinMuxDescriptor
  pub pin_type : SciPinType

pub record CtrlEndpoint : Type 0 where
  pub gpio : ℕ
  pub pin_type : SciPinType
  pub tx_active_level : CtrlTxActiveLevel

pub record SciDescriptor : Type 0 where
  pub sci_module : SciModule
  pub brr : ℕ
  pub rx : RxEndpoint
  pub tx : TxEndpoint
  pub ctrl : CtrlEndpoint

-- `C2837X_BLOCK_SCI_NO_CTRL_GPIO`
abbrev pub no_ctrl_gpio : ℕ
no_ctrl_gpio = 0xFFFF

-- `C2837X_BLOCK_SCI_TX_FIFO_DEPTH`
abbrev pub tx_fifo_depth : ℕ
tx_fifo_depth = 16

-- `C2837xBlock_SciChannelRuntime`. The pointer `tx_pending_data_words` is the index of a word of
-- the transmit frame, or `none` for NULL.
pub record ChannelRuntime : Type 0 where
  pub rx_staging_octet : ℕ
  pub rx_staging_valid : Bool
  pub software_pending : Bool
  pub ctrl_tx_active : Bool
  pub tx_pending_data_words : Option ℕ
  pub tx_pending_total_octets : ℕ
  pub tx_pending_queued_octets : ℕ
  pub connection_state : IoConnectionState
  pub session_cleanup_done : Bool

-- The four peripherals whose registers `c2837x_block_sci_registers` finds.
pub data Peripheral : Type 0 where
  scia scib scic scid : Peripheral

-- What the code does with the registers of a peripheral and with a pin; the hardware's state is
-- `H`. The status registers are volatile: each read returns a value and a next state, so that a
-- FIFO can drain or fill between any two reads. `write_pin` is `GPIO_WritePin` of the vendor's
-- library.
pub record Hardware (H : Type 0) : Type 0 where
  pub rxerror : Peripheral → H → Bool × H
  pub rxffovf : Peripheral → H → Bool × H
  pub rxffst : Peripheral → H → ℕ × H
  pub read_rxbuf : Peripheral → H → ℕ × H
  pub txffst : Peripheral → H → ℕ × H
  pub txempty : Peripheral → H → Bool × H
  pub write_txbuf : Peripheral → ℕ → H → H
  pub write_swreset : Peripheral → Bool → H → H
  pub write_rxffovrclr : Peripheral → Bool → H → H
  pub write_rxfiforeset : Peripheral → Bool → H → H
  pub write_txfiforeset : Peripheral → Bool → H → H
  pub write_pin : ℕ → ℕ → H → H

-- `C2837xBlock_SciChannel` beside the hardware that it drives.
pub record Channel (H : Type 0) : Type 0 where
  pub hardware_config : Option SciDescriptor
  pub runtime : ChannelRuntime
  pub hardware : H
