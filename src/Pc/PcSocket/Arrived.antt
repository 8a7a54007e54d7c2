-- ===== src/Pc/PcSocket/Arrived.antt =====
-- `c2837x_socket_recv_exact` of simulink/c2837x_block_pc_socket.c takes exactly the octets asked for, or
-- reports a failure, and returns.
use dsp_sim_bridge.Common.{
  ℕ, zero, suc, ◌+◌, ◌-◌, ◌^◌, ◌≡◌, ◌≤◌, ◌<◌, refl, sym, ap, ◌∙◌, Bool, true, Option, none, some,
  List, [], ◌++◌, ℤ, pos, failed, not, ltb, ltb→lt, arith, length, add32, if_intro, ◌==◌, ◌&&◌,
  is_positive, length-append,
}
use mathlib.Core.List.{append_assoc}
use dsp_sim_bridge.Pc.PcSocket.{
  Os, Round, ended, next, after_call, size_limit, wait_readable, recv_round, recv_on, recv_loop,
  socket_recv_exact,
}
use dsp_sim_bridge.Pc.PcSocket.Exact.{size_limit_bound}

-- What a descriptor's `recv` documents: it hands over a number of the octets that come next, no more
-- than asked for, and none when it would block; `incoming` are all that come. It would block no more
-- than `patience` times.
pub record RecvLaws {S : Type 0} (os : Os S) (fd : ℕ) : Type 0 where
  pub incoming : S → List ℕ
  pub patience : S → ℕ
  pub poll_keeps :
      (t : ℕ) (s : S)
      → (incoming (os.poll_in fd t s).2 ≡ incoming s)
        × (patience (os.poll_in fd t s).2 ≤ patience s)
  pub recv_takes :
      (size n : ℕ) (s : S)
      → (os.recv fd size s).0 ≡ some n
      → (n ≤ size)
        × (length (os.recv fd size s).2 ≡ n)
        × (incoming s ≡ (os.recv fd size s).2 ++ incoming (os.recv fd size s).3)
        × (patience (os.recv fd size s).3 ≤ patience s)
  pub recv_blocks :
      (size : ℕ) (s : S)
      → (os.recv fd size s).0 ≡ none
      → (os.recv fd size s).1 ≡ true
      → ((os.recv fd size s).2 ≡ [])
        × (incoming (os.recv fd size s).3 ≡ incoming s)
        × (patience (os.recv fd size s).3 < patience s)

module _ {S : Type 0} {os : Os S} {fd : ℕ} (laws : RecvLaws os fd) (count : ℕ)
    (small : count < 2 ^ 32) where
  -- What is left of the octets and of the patience.
  abbrev left : ℕ → S → ℕ
  left total s = (count - total) + laws.patience s

  -- A round from `total` octets on ends the loop, or goes on closer to the end.
  data IsReceiving (total : ℕ) (s : S) : Round → List ℕ → S → Type 0 where
    stops : (octets_ : List ℕ) (s1 : S) → IsReceiving total s (ended failed) octets_ s1
    goes :
        (more : ℕ) (octets_ : List ℕ) (s1 : S)
        → total ≤ more
        → more ≤ count
        → length octets_ ≡ more - total
        → laws.incoming s ≡ octets_ ++ laws.incoming s1
        → left more s1 < left total s
        → IsReceiving total s (next more) octets_ s1

  record IsRound (total : ℕ) (s : S) (out : Round × List ℕ × S) : Type 0 where
    round : IsReceiving total s out.0 out.1 out.2

  after_call-IsReceiving :
      (total size : ℕ) (s s1 s2 : S) (blocked : Bool) (octets_ : List ℕ) (got : Option ℕ)
      → total < count
      → size ≤ count - total
      → laws.incoming s1 ≡ laws.incoming s
      → laws.patience s1 ≤ laws.patience s
      → ((n : ℕ)
          → got ≡ some n
          → (n ≤ size)
            × (length octets_ ≡ n)
            × (laws.incoming s1 ≡ octets_ ++ laws.incoming s2)
            × (laws.patience s2 ≤ laws.patience s1))
      → (got ≡ none
          → blocked ≡ true
          → (octets_ ≡ [])
            × (laws.incoming s2 ≡ laws.incoming s1)
            × (laws.patience s2 < laws.patience s1))
      → IsRound total s (after_call total blocked got, octets_, s2)
  unfolding after_call
  after_call-IsReceiving total size s s1 s2 blocked octets_ none less fits kept same takes blocks =
      if_intro (λ r. IsRound total s (r, octets_, s2)) blocked
        (λ t.
          let (nothing, still, fewer) = blocks refl t in
          let empty : length octets_ ≡ 0 = ap length nothing in
          record {
            round =
                IsReceiving.goes total octets_ s2 (omega arith) (omega arith) (omega (arith, empty))
                  (sym kept ∙ sym still ∙ ap (λ l. l ++ laws.incoming s2) (sym nothing))
                  (omega (arith, same, fewer));
          })
        (λ _. record { round = IsReceiving.stops octets_ s2 })
  after_call-IsReceiving total size s s1 s2 blocked octets_ (some n) less fits kept same takes
        blocks =
      let (room, counted, front, patient) = takes n refl in
      if_intro (λ r. IsRound total s (r, octets_, s2)) (n == 0)
        (λ _. record { round = IsReceiving.stops octets_ s2 })
        (λ f.
          let in_range : add32 total n ≡ total + n = omega (arith, small, less, fits, room) in
          record {
            round = rw in_range (
                IsReceiving.goes (total + n) octets_ s2 (omega arith)
                  (omega (arith, less, fits, room)) (omega (arith, counted)) (sym kept ∙ front)
                  (ground (arith, f, less, fits, room, same, patient)));
          })

  recv_round-IsReceiving :
      (total t : ℕ) (s : S) → total < count → IsRound total s (recv_round os fd count total t s)
  unfolding recv_round wait_readable
  recv_round-IsReceiving total t s less =
      let (result, ready, s1) = os.poll_in fd t s in
      let (same, patient) = laws.poll_keeps t s in
      let size = size_limit (count - total) in
      let (got, blocked, octets_, s2) = os.recv fd size s1 in
      if_intro (IsRound total s) (not (is_positive result && ready))
        (λ _. record { round = IsReceiving.stops [] s1 })
        (λ _.
          after_call-IsReceiving total size s s1 s2 blocked octets_ got less
            (size_limit_bound (count - total)) same patient (λ n e. laws.recv_takes size n s1 e)
            (λ e b. laws.recv_blocks size s1 e b))

  -- The loop has returned, and if it returned 0, the octets from `total` on are the next that came.
  record IsDone (total : ℕ) (s : S) (out : Option ℤ × List ℕ × S) : Type 0 where
    returned : ¬ (out.0 ≡ none)
    received :
        out.0 ≡ some (pos 0)
        → (length out.1 ≡ count - total) × (laws.incoming s ≡ out.1 ++ laws.incoming out.2)

  recv_on-IsDone :
      (total : ℕ) (s : S) (rest : ℕ → S → Option ℤ × List ℕ × S) (round : Round) (octets_ : List ℕ)
      (s1 : S)
      → ((more : ℕ) (s2 : S)
          → more ≤ count
          → left more s2 < left total s
          → IsDone more s2 (rest more s2))
      → IsReceiving total s round octets_ s1
      → IsDone total s (recv_on rest round octets_ s1)
  unfolding recv_on
  recv_on-IsDone total s rest _ _ _ again (IsReceiving.stops octets_ s1) = record {
    returned = λ e. cc;
    received = λ e. cc;
  }
  recv_on-IsDone total s rest _ _ _ again
        (IsReceiving.goes more octets_ s1 forward within counted front closer) =
      let done = again more s1 within closer in
      let (result, after, s2) = rest more s1 in
      record {
        returned = done.returned;
        received = λ e.
            let (as_many, in_order) = done.received e in
            (
              omega (arith, length-append octets_ after, counted, as_many, forward, within),
              front
                  ∙ ap (λ l. octets_ ++ l) in_order
                  ∙ sym (append_assoc octets_ after (laws.incoming s2)),
            );
      }

  recv_loop-IsDone :
      (fuel total t : ℕ) (s : S)
      → total ≤ count
      → left total s < fuel
      → IsDone total s (recv_loop os fuel fd count total t s)
  unfolding recv_loop
  recv_loop-IsDone zero total t s within enough = absurd (omega arith)
  recv_loop-IsDone (suc fuel) total t s within enough =
      let (round, octets_, s1) = recv_round os fd count total t s in
      if_intro (IsDone total s) (ltb total count)
        (λ h.
          recv_on-IsDone total s (λ more s2. recv_loop os fuel fd count more t s2) round octets_ s1
            (λ more s2 reach closer.
              recv_loop-IsDone fuel more t s2 reach (omega (arith, closer, enough)))
            (recv_round-IsReceiving total t s (ltb→lt total count h)).round)
        (λ f. record { returned = λ e. cc; received = λ _. (ground (arith, f, within), refl) })

-- With as many rounds as octets asked for and refusals to come, and one more, `recv_exact` returns; and
-- if it returns 0, it has stored exactly as many octets as asked for, the next that came, in order.
pub socket_recv_exact-IsDone :
    {S : Type 0} {os : Os S} {fd : ℕ} (laws : RecvLaws os fd) (count t fuel : ℕ) (s : S)
    → count < 2 ^ 32
    → count + laws.patience s < fuel
    → let (result, octets_, s1) = socket_recv_exact os fuel fd count t s in
      (¬ (result ≡ none))
      × (result ≡ some (pos 0)
          → (length octets_ ≡ count) × (laws.incoming s ≡ octets_ ++ laws.incoming s1))
unfolding socket_recv_exact
socket_recv_exact-IsDone laws count t fuel s small enough =
    let done = recv_loop-IsDone laws count small fuel 0 t s (omega arith) (omega (arith, enough)) in
    (
      done.returned,
      λ e. let (as_many, in_order) = done.received e in (omega (arith, as_many), in_order),
    )
