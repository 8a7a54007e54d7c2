-- ===== src/W5300/Registers.antt =====
-- Addresses and values of dsp/inc/c2837x_w5300_regs.h, in direct addressing mode.
use dsp_sim_bridge.Common.{ℕ, ◌+◌, ◌*◌}

abbrev pub max_sock_num : ℕ
max_sock_num = 8

abbrev pub map_base : ℕ
map_base = 0x380000

-- `IR` and the network registers.
abbrev pub ir_reg : ℕ
ir_reg = map_base + 0x2

abbrev pub shar0 : ℕ
shar0 = map_base + 0x8

abbrev pub shar2 : ℕ
shar2 = map_base + 0xA

abbrev pub shar4 : ℕ
shar4 = map_base + 0xC

abbrev pub gar0 : ℕ
gar0 = map_base + 0x10

abbrev pub gar2 : ℕ
gar2 = map_base + 0x12

abbrev pub subr0 : ℕ
subr0 = map_base + 0x14

abbrev pub subr2 : ℕ
subr2 = map_base + 0x16

abbrev pub sipr0 : ℕ
sipr0 = map_base + 0x18

abbrev pub sipr2 : ℕ
sipr2 = map_base + 0x1A

-- `SOCKET_REG_BASE + (n) * SOCKET_REG_SIZE`
abbrev pub socket_reg : ℕ → ℕ
socket_reg n = map_base + 0x200 + n * 0x40

abbrev pub sn_mr : ℕ → ℕ
sn_mr n = socket_reg n + 0x0

abbrev pub sn_cr : ℕ → ℕ
sn_cr n = socket_reg n + 0x2

abbrev pub sn_imr : ℕ → ℕ
sn_imr n = socket_reg n + 0x4

abbrev pub sn_ir : ℕ → ℕ
sn_ir n = socket_reg n + 0x6

abbrev pub sn_ssr : ℕ → ℕ
sn_ssr n = socket_reg n + 0x8

abbrev pub sn_portr : ℕ → ℕ
sn_portr n = socket_reg n + 0xA

abbrev pub sn_dportr : ℕ → ℕ
sn_dportr n = socket_reg n + 0x12

abbrev pub sn_dipr : ℕ → ℕ
sn_dipr n = socket_reg n + 0x14

abbrev pub sn_protor : ℕ → ℕ
sn_protor n = socket_reg n + 0x1A

abbrev pub sn_tosr : ℕ → ℕ
sn_tosr n = socket_reg n + 0x1C

abbrev pub sn_ttlr : ℕ → ℕ
sn_ttlr n = socket_reg n + 0x1E

abbrev pub sn_tx_wrsr : ℕ → ℕ
sn_tx_wrsr n = socket_reg n + 0x20

abbrev pub sn_tx_fsr : ℕ → ℕ
sn_tx_fsr n = socket_reg n + 0x24

abbrev pub sn_rx_rsr : ℕ → ℕ
sn_rx_rsr n = socket_reg n + 0x28

abbrev pub sn_tx_fifor : ℕ → ℕ
sn_tx_fifor n = socket_reg n + 0x2E

abbrev pub sn_rx_fifor : ℕ → ℕ
sn_rx_fifor n = socket_reg n + 0x30

abbrev pub sn_tx_wrsr2 : ℕ → ℕ
sn_tx_wrsr2 n = sn_tx_wrsr n + 2

abbrev pub sn_tx_fsr2 : ℕ → ℕ
sn_tx_fsr2 n = sn_tx_fsr n + 2

abbrev pub sn_rx_rsr2 : ℕ → ℕ
sn_rx_rsr2 n = sn_rx_rsr n + 2

abbrev pub sn_dipr2 : ℕ → ℕ
sn_dipr2 n = sn_dipr n + 2

abbrev pub mr_align : ℕ
mr_align = 0x100

abbrev pub mr_tcp : ℕ
mr_tcp = 0x01

abbrev pub mr_udp : ℕ
mr_udp = 0x02

abbrev pub cr_open : ℕ
cr_open = 0x01

abbrev pub cr_listen : ℕ
cr_listen = 0x02

abbrev pub cr_discon : ℕ
cr_discon = 0x08

abbrev pub cr_close : ℕ
cr_close = 0x10

abbrev pub cr_send : ℕ
cr_send = 0x20

abbrev pub cr_recv : ℕ
cr_recv = 0x40

abbrev pub ir_sendok : ℕ
ir_sendok = 0x10

abbrev pub ir_timeout : ℕ
ir_timeout = 0x08

abbrev pub ir_con : ℕ
ir_con = 0x01

abbrev pub sock_closed : ℕ
sock_closed = 0x00

abbrev pub sock_arp : ℕ
sock_arp = 0x01

abbrev pub sock_init : ℕ
sock_init = 0x13

abbrev pub sock_listen : ℕ
sock_listen = 0x14

abbrev pub sock_synsent : ℕ
sock_synsent = 0x15

abbrev pub sock_synrecv : ℕ
sock_synrecv = 0x16

abbrev pub sock_established : ℕ
sock_established = 0x17

abbrev pub sock_fin_wait : ℕ
sock_fin_wait = 0x18

abbrev pub sock_closing : ℕ
sock_closing = 0x1A

abbrev pub sock_time_wait : ℕ
sock_time_wait = 0x1B

abbrev pub sock_close_wait : ℕ
sock_close_wait = 0x1C

abbrev pub sock_last_ack : ℕ
sock_last_ack = 0x1D

abbrev pub sock_udp : ℕ
sock_udp = 0x22

abbrev pub sock_ipraw : ℕ
sock_ipraw = 0x32

abbrev pub sock_macraw : ℕ
sock_macraw = 0x42

abbrev pub sock_pppoe : ℕ
sock_pppoe = 0x5F
