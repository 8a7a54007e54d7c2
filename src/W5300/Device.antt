-- ===== src/W5300/Device.antt =====
-- `c2837x_w5300_iodevice_ops` of dsp/src/c2837x_w5300_channel.c as the device of the protocol Core.
use dsp_sim_bridge.Common.{
  ℕ, ◌+◌, ◌/◌, take, ◌*◌, ◌≡◌, ◌∙◌, sym, [], false, pos, is_odd, drop, length-drop, arith, ap, inl,
  inr, true, some, List, ℤ, ◌++◌,
}
use mathlib.Core.List.{map, map-append, append_assoc, append-nil}
use dsp_sim_bridge.Core.Types.{Ops, Block, frame_ready, sending, receiving}
use dsp_sim_bridge.Core.Invariant.{IsValid}
use dsp_sim_bridge.Core.Transfer.Intact.{received_words}
use dsp_sim_bridge.Core.Transfer.Reassembly.{Fed, frame_reassembled}
use dsp_sim_bridge.Core.Transfer.{Source, Sink}
use dsp_sim_bridge.Core.Transfer.Transmission.{Drained, frame_delivered}
use dsp_sim_bridge.W5300.Outbound.{Outbound}
use dsp_sim_bridge.W5300.Socket.Submitted.{written}
use dsp_sim_bridge.W5300.Channel.Pieces.{IsIdle, Waits, send-IsSent}
use dsp_sim_bridge.W5300.Hal.{Bus, in_fifo}
use dsp_sim_bridge.W5300.Inbound.{Inbound}
use dsp_sim_bridge.W5300.Channel.{TcpChannel, Platform, channel_init, send_idle}
use dsp_sim_bridge.W5300.Channel.Control.{
  open_channel, listen_channel, get_connection_state, receive,
}
use dsp_sim_bridge.W5300.Channel.Sending.{send}
use dsp_sim_bridge.W5300.Channel.Close.{close_channel}
use dsp_sim_bridge.W5300.Channel.Received.{coming, receive-IsHandedOver}

-- The callbacks of the algorithm, `C2837xBlock_AlgorithmAdapter`, on a state that holds its context
-- and objects beside the hardware.
pub record Adapter (W : Type 0) : Type 0 where
  pub reset_io : W → W
  pub on_start : W → ℤ × W
  pub decode_input : List ℕ → W → W
  pub on_step : W → ℤ × W
  pub encode_output : W → List ℕ
  pub on_stop : W → W

module _ {W : Type 0} (bus : Bus W) (platform : Platform W) (adapter : Adapter W) where
  -- The table of operations, with the adapter and the clock of an instance's configuration. The
  -- Core's frame pointers are not NULL.
  unfoldable pub tcp_ops : Ops (TcpChannel × W)
  tcp_ops = record {
    channel_init = λ (c, w). (channel_init platform c w, w);
    open_op = λ (c, w). let (result, c1, w1) = open_channel bus platform c w in (result, (c1, w1));
    listen = λ (c, w). let (result, c1, w1) = listen_channel bus platform c w in (result, (c1, w1));
    get_connection_state =
        λ (c, w). let (state, c1, w1) = get_connection_state bus platform c w in (state, (c1, w1));
    receive = λ capacity (c, w).
        let (result, words, c1, w1) = receive bus true capacity c w in (result, words, (c1, w1));
    send = λ frame at count (c, w).
        let (result, c1, w1) = send bus frame (some at) count c w in (result, (c1, w1));
    close = λ (c, w). let ((result, c1), w1) = close_channel bus platform c w in (result, (c1, w1));
    reset_io = λ (c, w). (c, adapter.reset_io w);
    on_start = λ (c, w). let (result, w1) = adapter.on_start w in (result, (c, w1));
    decode_input = λ words (c, w). (c, adapter.decode_input words w);
    on_step = λ (c, w). let (result, w1) = adapter.on_step w in (result, (c, w1));
    encode_output = λ (c, w). adapter.encode_output w;
    on_stop = λ (c, w). (c, adapter.on_stop w);
    time_us = λ (c, w). let (now_us, w1) = platform.time_us w in (now_us, (c, w1));
  }

  -- The words that the socket of a channel has yet to hand over are what the Core can rely on, if
  -- reading the clock does not touch the chip.
  pub tcp_source :
      (inbounds : (sn : ℕ) → Inbound bus sn)
      → ((sn : ℕ) (w : W)
          → (inbounds sn).incoming (platform.time_us w).1 ≡ (inbounds sn).incoming w)
      → Source tcp_ops
  unfolding tcp_ops
  tcp_source inbounds clock_quiet = record {
    pending = λ (c, w). coming inbounds c.socket w;
    receive_next = λ n (c, w). elim (receive-IsHandedOver inbounds true n c w).outcome [
      | inl bad ↦ inl bad
      | inr (r, room, kept) ↦ inr (r, kept)
    ];
    time_pending = λ (c, w). ap (map (in_fifo bus)) (clock_quiet c.socket.sn w);
  }

  even_half : (n : ℕ) → is_odd n ≡ false → n ≡ 2 * (n / 2)
  even_half n even = ground arith

  -- What a channel has confirmed, of the words written to the FIFO behind `start`, is what the Core
  -- can rely on; a piece that is written but not confirmed is what the channel waits for.
  pub tcp_sink :
      (outbounds : (sn : ℕ) → Outbound bus sn)
      → ((sn : ℕ) (w : W)
          → (outbounds sn).outgoing (platform.time_us w).1 ≡ (outbounds sn).outgoing w)
      → List ℕ
      → Sink tcp_ops
  unfolding tcp_ops
  tcp_sink outbounds clock_quiet start =
      let fifo = map (in_fifo bus) in
      record {
        IsIdle = λ base (c, w). IsIdle outbounds (start ++ fifo base) c w;
        Waits = λ base tx at n (c, w). Waits outbounds tx at n (start ++ fifo base) c w;
        idle_waits = λ base tx at n (c, w) idle. inl idle;
        time_idle = λ base (c, w) idle. record {
          idle = idle.idle;
          sent = clock_quiet c.socket.sn w ∙ idle.sent;
        };
        time_waits = λ base tx at n (c, w) waits. elim waits [
          | inl i ↦ inl (record { idle = i.idle; sent = clock_quiet c.socket.sn w ∙ i.sent })
          | inr p ↦ inr (record {
            pending = p.pending;
            some_octets = p.some_octets;
            even = p.even;
            room = p.room;
            sent = clock_quiet c.socket.sn w ∙ p.sent;
          })
        ];
        send_next = λ base tx at n (c, w) fits waits.
            elim (send-IsSent outbounds tx at n (start ++ fifo base) c w
              (omega (arith, fits, length-drop at tx)) waits).outcome [
                | inl bad ↦ inl bad
                | inr (inl (nothing, still)) ↦ inr (inl (nothing, still))
                | inr (inr (m, counted, some_octets, room, even, idle, sent)) ↦
                    let half = even_half m even in
                    let words = take (m / 2) (drop at tx) in
                    inr (
                      inr (
                        m / 2,
                        counted ∙ ap pos half,
                        omega (arith, half, some_octets),
                        record {
                          idle = idle;
                          sent =
                              sent
                              ∙ append_assoc start (fifo base) (fifo words)
                              ∙ ap (λ l. start ++ l) (sym (map-append (in_fifo bus) base words));
                        },
                      ))
              ];
      }

-- An instance over a TCP channel is well formed and waits for the first octet of a frame, and is run
-- while it is receiving until the frame is ready. However the chip's FIFO cuts the stream into
-- pieces, in either byte order of the FIFO, the receive frame then begins with exactly the words
-- that the socket had to hand over at first, in their order, as many as header and payload length
-- say, and the socket has the rest still to hand over.
pub tcp_frame_reassembled :
    {W : Type 0} {bus : Bus W} (platform : Platform W) (adapter : Adapter W)
    (inbounds : (sn : ℕ) → Inbound bus sn) {b b' : Block (TcpChannel × W)}
    → ((sn : ℕ) (w : W) → (inbounds sn).incoming (platform.time_us w).1 ≡ (inbounds sn).incoming w)
    → IsValid b
    → received_words b.runtime ≡ 0
    → Fed (tcp_ops bus platform adapter) b b'
    → b'.runtime.state ≡ frame_ready
    → take ((4 + b'.runtime.rx_payload_length_octets) / 2) b'.rx_frame_words
        ++ coming inbounds b'.world.0.socket b'.world.1
      ≡ coming inbounds b.world.0.socket b.world.1
unfolding tcp_source
tcp_frame_reassembled {bus = bus} platform adapter inbounds clock_quiet v none fed ready =
    frame_reassembled (tcp_source bus platform adapter inbounds clock_quiet) v none fed ready

-- A well-formed instance over a TCP channel with nothing submitted starts to send a frame, and is
-- run while it is sending until it goes on to receive. In however many pieces, each confirmed by the
-- chip in a later call than the one that writes it, the words written to the FIFO of the socket by
-- then are those written before, followed by exactly the words of the frame up to its total, once and
-- in order, in either byte order of the FIFO, and nothing more is submitted.
pub tcp_frame_delivered :
    {W : Type 0} {bus : Bus W} (platform : Platform W) (adapter : Adapter W)
    (outbounds : (sn : ℕ) → Outbound bus sn) {b b' : Block (TcpChannel × W)}
    → ((sn : ℕ) (w : W)
        → (outbounds sn).outgoing (platform.time_us w).1 ≡ (outbounds sn).outgoing w)
    → IsValid b
    → b.runtime.state ≡ sending
    → b.runtime.tx_sent_octets ≡ 0
    → b.world.0.send_state ≡ send_idle
    → Drained (tcp_ops bus platform adapter) b b'
    → b'.runtime.state ≡ receiving
    → (b'.world.0.send_state ≡ send_idle)
      × (written outbounds b'.world.0.socket b'.world.1
          ≡ written outbounds b.world.0.socket b.world.1
            ++ map (in_fifo bus) (take (b.runtime.tx_total_octets / 2) b.tx_frame_words))
unfolding tcp_sink
tcp_frame_delivered {bus = bus} platform adapter outbounds {b} clock_quiet v e none idle drained
      e' =
    let start = written outbounds b.world.0.socket b.world.1 in
    let quiet =
      frame_delivered (tcp_sink bus platform adapter outbounds clock_quiet start) [] v e none
        (record { idle = idle; sent = sym (append-nil start) }) drained e' in
    (quiet.idle, quiet.sent)
