-- ===== src/Pc/PcSocket.antt =====
-- The TCP socket of the PC: simulink/c2837x_block_pc_socket.c, as it is built for POSIX: waiting, send_all
-- and recv_exact. A NULL socket or buffer is not modelled.
pub mod Exact
pub mod Arrived
mod Tests
use dsp_sim_bridge.Common.{
  ℕ, zero, suc, ◌+◌, ◌-◌, ◌^◌, Bool, true, false, Option, none, some, List, [], ◌++◌, ℤ, pos,
  failed, not, ltb, ◌==◌, ◌&&◌, length, take, drop, is_positive, add32, if◌then◌else◌,
}

-- The calls of the operating system on a descriptor, on a state that holds its sockets. `poll` is
-- asked for one event, and returns its result and whether that event is among `revents`; `send` and
-- `recv` return a count, or `none` for -1, and whether `errno` is then EAGAIN or EWOULDBLOCK.
pub record Os (S : Type 0) : Type 0 where
  pub poll_out : ℕ → ℕ → S → ℤ × Bool × S
  pub poll_in : ℕ → ℕ → S → ℤ × Bool × S
  pub send : ℕ → List ℕ → S → Option ℕ × Bool × S
  pub recv : ℕ → ℕ → S → Option ℕ × Bool × List ℕ × S

-- `INT_MAX`
abbrev pub int_max : ℕ
int_max = 2 ^ 31 - 1

abbrev pub size_limit : ℕ → ℕ
size_limit n = if ltb n int_max then n else int_max

-- What a round of a loop comes to: the function returns, or the next round starts from a count.
pub data Round : Type 0 where
  ended : ℤ → Round
  next : ℕ → Round

-- By what `send` or `recv` returned: a call that would block is made again.
unfoldable pub after_call : ℕ → Bool → Option ℕ → Round
after_call total blocked none = if blocked then next total else ended failed
after_call total blocked (some n) = if n == 0 then ended failed else next (add32 total n)

-- The next round, if there is one; `rest` are the rounds from a count on.
unfoldable pub send_on : {S : Type 0} → (ℕ → S → Option ℤ × S) → Round → S → Option ℤ × S
send_on rest (ended result) s = (some result, s)
send_on rest (next more) s = rest more s

-- The same, behind the octets stored up to now.
unfoldable pub recv_on :
    {S : Type 0} → (ℕ → S → Option ℤ × List ℕ × S) → Round → List ℕ → S → Option ℤ × List ℕ × S
recv_on rest (ended result) before s = (some result, before, s)
recv_on rest (next more) before s =
    let (result, octets_, s1) = rest more s in (result, before ++ octets_, s1)

module _ {S : Type 0} (os : Os S) where
  unfoldable pub wait_writable : ℕ → ℕ → S → Bool × S
  wait_writable fd timeout_ms s =
      let (result, ready, s1) = os.poll_out fd timeout_ms s in (is_positive result && ready, s1)

  unfoldable pub wait_readable : ℕ → ℕ → S → Bool × S
  wait_readable fd timeout_ms s =
      let (result, ready, s1) = os.poll_in fd timeout_ms s in (is_positive result && ready, s1)

  -- A round of `c2837x_socket_send_all`.
  unfoldable pub send_round : ℕ → List ℕ → ℕ → ℕ → S → Round × S
  unfolding wait_writable after_call
  send_round fd data_octets total timeout_ms s =
      let (ready, s1) = wait_writable fd timeout_ms s in
      let size = size_limit (length data_octets - total) in
      if not ready
      then (ended failed, s1)
      else let (count, blocked, s2) = os.send fd (take size (drop total data_octets)) s1 in
        (after_call total blocked count, s2)

  -- Its loop from `total` octets on, for as many rounds as the fuel says; `none` when it is used up.
  unfoldable pub send_loop : ℕ → ℕ → List ℕ → ℕ → ℕ → S → Option ℤ × S
  unfolding send_round send_on
  send_loop zero fd data_octets total timeout_ms s = (none, s)
  send_loop (suc fuel) fd data_octets total timeout_ms s =
      if ltb total (length data_octets)
      then (let (round, s1) = send_round fd data_octets total timeout_ms s in
          send_on (λ more s2. send_loop fuel fd data_octets more timeout_ms s2) round s1)
      else (some (pos 0), s)

  -- `c2837x_socket_send_all`
  unfoldable pub socket_send_all : ℕ → ℕ → List ℕ → ℕ → S → Option ℤ × S
  unfolding send_loop
  socket_send_all fuel fd data_octets timeout_ms s = send_loop fuel fd data_octets 0 timeout_ms s

  -- A round of `c2837x_socket_recv_exact`, with the octets that it stores.
  unfoldable pub recv_round : ℕ → ℕ → ℕ → ℕ → S → Round × List ℕ × S
  unfolding wait_readable after_call
  recv_round fd count total timeout_ms s =
      let (ready, s1) = wait_readable fd timeout_ms s in
      if not ready
      then (ended failed, [], s1)
      else let (got, blocked, octets_, s2) = os.recv fd (size_limit (count - total)) s1 in
        (after_call total blocked got, octets_, s2)

  unfoldable pub recv_loop : ℕ → ℕ → ℕ → ℕ → ℕ → S → Option ℤ × List ℕ × S
  unfolding recv_round recv_on
  recv_loop zero fd count total timeout_ms s = (none, [], s)
  recv_loop (suc fuel) fd count total timeout_ms s =
      if ltb total count
      then (let (round, octets_, s1) = recv_round fd count total timeout_ms s in
          recv_on (λ more s2. recv_loop fuel fd count more timeout_ms s2) round octets_ s1)
      else (some (pos 0), [], s)

  -- `c2837x_socket_recv_exact`: the result, and the octets stored.
  unfoldable pub socket_recv_exact : ℕ → ℕ → ℕ → ℕ → S → Option ℤ × List ℕ × S
  unfolding recv_loop
  socket_recv_exact fuel fd count timeout_ms s = recv_loop fuel fd count 0 timeout_ms s
