-- ===== src/Lib.antt =====
-- DSP-SimBridge: a bridge between a Simulink S-Function on a PC and a runtime on a TI C2837x DSP.
-- The PC sends SIM_START, then one INPUT_DATA frame for each simulation step, then SIM_STOP; the
-- DSP answers with RESPONSE and OUTPUT_DATA frames over one of several transports.
--
-- The parts, and where they are modelled:
--   Wire      the frames of the wire protocol, version 1 (dsp/inc/c2837x_block_protocol.h and
--             dsp/src/c2837x_block_protocol.c)
--   Core      the device-independent, non-blocking protocol Core (dsp/src/c2837x_block.c with
--             dsp/src/c2837x_block_internal.h and dsp/src/c2837x_block_config_internal.h). `init` is
--             C2837xBlock_Init, `run` is C2837xBlock_Run, and a function of the file that is called
--             c2837x_block_f is `f` here; the branches that are long have a name of their own.
--   Sci       the serial transport (dsp/src/c2837x_block_sci.c, dsp/inc/c2837x_block_sci.h)
--   W5300     the Ethernet transport: the chip's registers and FIFOs (dsp/inc/c2837x_w5300_regs.h,
--             dsp/src/c2837x_w5300_hal.c), its sockets (dsp/src/c2837x_w5300_socket.c), the TCP
--             channel (dsp/src/c2837x_w5300_channel.c) and, in W5300/Udp, the UDP channel
--             (dsp/src/c2837x_w5300_udp_channel.c, where names carry udp_). A function
--             c2837x_w5300_f is `f` here, and the socket's open, listen, send, recv and so on are
--             `socket_open` and so on. W5300/Device and W5300/Udp/Device are the tables of
--             operations, through which the Core runs over the chip.
--   Pc        the protocol layer of the PC side (simulink/c2837x_block_protocol.c) and, in Pc/PcSocket,
--             the waits and loops of its TCP socket (simulink/c2837x_block_pc_socket.c)
--   Common    lists over the native numbers, machine words, C tests
--
-- How state corresponds. An instance of the Core is a `Block`: its configuration, its `Runtime`,
-- the two frame buffers as lists of 16-bit words, and a world `W` of any type, on which the
-- device, the algorithm and the clock act through the callbacks of `Ops`, as they do in C through
-- the pointers of the configuration. A function that changes the instance returns the new one. The
-- SCI channel stands beside the state `H` of its peripheral, on which the register accesses of
-- `Hardware` act (each read of a status register may change it), the W5300's socket and channel beside the state `W` of the chip, on which the
-- bus accesses of `Bus` act, in the order of the C code; the PC functions stand over the two
-- socket operations of `Socket`. Fields of type Uint16 that only ever hold 0 or 1 are Booleans;
-- 32-bit counters wrap around where the C code can make them wrap. The DSP's frames are words, the
-- PC's are octets: `octets` is the wire order.
--
-- Loops. Those of the Core copy a known number of words. The loop of the SCI `receive` runs on the
-- octets available, that of `send` on the octets to write; those of the W5300 run on a number of
-- FIFO words or on the three attempts of a stable read. All of these are structural recursion. The
-- loops of the PC socket have fuel, one for each round: as many as there are octets and calls that
-- would block, and one more, are enough.
--
-- Not modelled: NULL in place of an instance, a channel, a socket or an out parameter; the pin,
-- EMIF and reset set-up of the W5300 and the platform's (dsp/src/c2837x_block_platform.c,
-- dsp/src/c2837x_block_timer2.c), the sample algorithm and its configuration, connecting and
-- closing the PC's socket, its serial port and the S-Function (simulink/c2837x_block_pc_serial.c,
-- simulink/c2837x_block_sfun*.c); the configurator (app), which is MATLAB; tests and documents.
pub mod Common
pub mod Wire
pub mod Core
pub mod Sci
pub mod Pc
pub mod W5300
