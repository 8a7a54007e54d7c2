-- ===== src/Pc/Tests.antt =====
-- Concrete instances of the theorems on the PC side.
use dsp_sim_bridge.Common.{◌≡◌, refl, true, [], ◌∷◌, ◌++◌, arith, some, octets, pos, take}
use dsp_sim_bridge.Wire.{build_response, msg_sim_start}
use dsp_sim_bridge.Pc.Frames.{send_frame, recv_frame}
use dsp_sim_bridge.Pc.Messages.{send_sim_start, wait_response, wait_output_data}
use dsp_sim_bridge.Pc.Wire.{IsSentAs, send_frame-IsSentAs, send_sim_start-IsSentAs}
use dsp_sim_bridge.Pc.Replies.{
  IsReceived, frame_of, recv_frame-IsReceived, wait_response-build_response, wait_output_data-reply,
}
use dsp_sim_bridge.Pc.Simulated.{Stream, stream_socket, stream_outlet, stream_inlet}

abbrev quiet : Stream
quiet = record { arrived = []; gone = 9 ∷ [] }

-- The two payload words of an input frame, and one octet of whatever follows.
abbrev arrived_frame : Stream
arrived_frame = record { arrived = octets (3 ∷ 4 ∷ 0x0201 ∷ 5 ∷ []) ++ (77 ∷ []); gone = [] }

abbrev arrived_response : Stream
arrived_response = record {
  arrived = octets (take 3 (build_response (0 ∷ 0 ∷ 0 ∷ 0 ∷ []) 7).0) ++ [];
  gone = [];
}

send_frame-IsSentAs_example :
    IsSentAs stream_outlet
      (9 ∷ [])
      (octets (2 ∷ 4 ∷ 0x0201 ∷ 5 ∷ []))
      (send_frame stream_socket 2 4 (some (octets (0x0201 ∷ 5 ∷ []))) 100 quiet)
send_frame-IsSentAs_example = send_frame-IsSentAs stream_outlet 2 (0x0201 ∷ 5 ∷ []) 100 quiet

send_sim_start-IsSentAs_example :
    IsSentAs stream_outlet
      (9 ∷ [])
      (octets (msg_sim_start ∷ 6 ∷ 1 ∷ 0xBEEF ∷ 0xDEAD ∷ []))
      (send_sim_start stream_socket 1 0xDEADBEEF 100 quiet)
send_sim_start-IsSentAs_example = send_sim_start-IsSentAs stream_outlet 1 0xDEADBEEF 100 quiet

recv_frame-IsReceived_example :
    IsReceived stream_inlet
      (frame_of 3 (0x0201 ∷ 5 ∷ []))
      (77 ∷ [])
      (recv_frame stream_socket true 64 100 arrived_frame)
recv_frame-IsReceived_example =
    recv_frame-IsReceived stream_inlet 3 (0x0201 ∷ 5 ∷ []) (77 ∷ []) 64 100 arrived_frame
      (omega arith) (omega arith) (omega arith) refl

wait_response-build_response_example :
    (wait_response stream_socket 7 100 arrived_response).0 ≡ pos 0
wait_response-build_response_example =
    wait_response-build_response stream_inlet (0 ∷ 0 ∷ 0 ∷ 0 ∷ []) [] 7 7 100 arrived_response
      (omega arith) (omega arith) refl

wait_output_data-reply_example :
    (wait_output_data stream_socket 64 100 arrived_frame).0 ≡ (some (octets (0x0201 ∷ 5 ∷ [])), 0)
wait_output_data-reply_example =
    wait_output_data-reply stream_inlet 3 (0x0201 ∷ 5 ∷ []) (77 ∷ []) 64 100 arrived_frame
      (omega arith) (omega arith) (omega arith) (omega arith) refl
