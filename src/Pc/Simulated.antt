-- ===== src/Pc/Simulated.antt =====
-- A simulated socket that always succeeds when enough octets have arrived.
use dsp_sim_bridge.Common.{
  ℕ, ◌≡◌, ◌≤◌, refl, sym, List, [], ◌++◌, ℤ, pos, failed, if_intro, leb, arith, length, take, drop,
  length-take, take-append-drop, absurd_bool, is_zero, true, if◌then◌else◌,
}
use dsp_sim_bridge.Pc.Frames.{Socket}
use dsp_sim_bridge.Pc.Link.{Outlet, Inlet}

-- What can be read, and what was sent.
pub record Stream : Type 0 where
  pub arrived : List ℕ
  pub gone : List ℕ

abbrev pub stream_socket : Socket Stream
stream_socket = record {
  send_all = λ os t s. (pos 0, record s { gone = s.gone ++ os });
  recv_exact = λ n t s.
      if leb n (length s.arrived)
      then (pos 0, take n s.arrived, record s { arrived = drop n s.arrived })
      else (failed, [], s);
}

abbrev pub stream_outlet : Outlet stream_socket
stream_outlet = record { sent = λ s. s.gone; send_next = λ os t s ok. refl }

pub stream_ready :
    (n t : ℕ) (s : Stream)
    → n ≤ length s.arrived
    → is_zero (stream_socket.recv_exact n t s).0 ≡ true
stream_ready n t s enough =
    if_intro (λ (out : ℤ × List ℕ × Stream). is_zero out.0 ≡ true) (leb n (length s.arrived))
      (λ _. refl) (λ f. absurd (ground (arith, f, enough)))

pub stream_count :
    (n t : ℕ) (s : Stream)
    → is_zero (stream_socket.recv_exact n t s).0 ≡ true
    → length (stream_socket.recv_exact n t s).1 ≡ n
stream_count n t s =
    if_intro (λ (out : ℤ × List ℕ × Stream). is_zero out.0 ≡ true → length out.1 ≡ n)
      (leb n (length s.arrived))
      (λ ok _.
        let few : n ≤ length s.arrived = ground (arith, ok) in
        omega (arith, length-take n s.arrived))
      (λ _ bad. absurd_bool bad refl)

pub stream_next :
    (n t : ℕ) (s : Stream)
    → s.arrived ≡ (stream_socket.recv_exact n t s).1 ++ (stream_socket.recv_exact n t s).2.arrived
stream_next n t s =
    if_intro (λ (out : ℤ × List ℕ × Stream). s.arrived ≡ out.1 ++ out.2.arrived)
      (leb n (length s.arrived)) (λ _. sym (take-append-drop n s.arrived)) (λ _. refl)

abbrev pub stream_inlet : Inlet stream_socket
stream_inlet = record {
  incoming = λ s. s.arrived;
  recv_ready = λ n t s enough. stream_ready n t s enough;
  recv_count = λ n t s ok. stream_count n t s ok;
  recv_next = λ n t s ok. stream_next n t s;
}
