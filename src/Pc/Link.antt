-- ===== src/Pc/Link.antt =====
-- What the protocol layer relies on from the socket of simulink/c2837x_block_pc_socket.c.
use dsp_sim_bridge.Common.{ℕ, ◌≡◌, ◌≤◌, true, List, ◌++◌, length, is_zero}
use dsp_sim_bridge.Pc.Frames.{Socket}

-- `sent` are the octets that have gone out: a successful `send_all` adds all of its octets.
pub record Outlet {S : Type 0} (io : Socket S) : Type 0 where
  pub sent : S → List ℕ
  pub send_next :
      (os : List ℕ) (timeout_ms : ℕ) (s : S)
      → is_zero (io.send_all os timeout_ms s).0 ≡ true
      → sent (io.send_all os timeout_ms s).1 ≡ sent s ++ os

-- `incoming` are the octets still to be read: a successful `recv_exact` takes as many as it was
-- asked for from the front, and it succeeds if that many have arrived.
pub record Inlet {S : Type 0} (io : Socket S) : Type 0 where
  pub incoming : S → List ℕ
  pub recv_ready :
      (n timeout_ms : ℕ) (s : S)
      → n ≤ length (incoming s)
      → is_zero (io.recv_exact n timeout_ms s).0 ≡ true
  pub recv_count :
      (n timeout_ms : ℕ) (s : S)
      → is_zero (io.recv_exact n timeout_ms s).0 ≡ true
      → length (io.recv_exact n timeout_ms s).1 ≡ n
  pub recv_next :
      (n timeout_ms : ℕ) (s : S)
      → is_zero (io.recv_exact n timeout_ms s).0 ≡ true
      → incoming s ≡ (io.recv_exact n timeout_ms s).1 ++ incoming (io.recv_exact n timeout_ms s).2
