-- ===== src/Pc/PcSocket/Exact.antt =====
-- `c2837x_socket_send_all` and `c2837x_socket_recv_exact` move all of the octets or report a failure, and
-- return.
use dsp_sim_bridge.Common.{
  ℕ, zero, suc, ◌+◌, ◌-◌, ◌^◌, ◌≡◌, ◌≤◌, ◌<◌, refl, sym, ap, ◌∙◌, Bool, true, Option, none, some,
  List, [], ◌∷◌, ◌++◌, ℤ, pos, failed, not, ltb, ltb→lt, arith, length, take, drop, add32, if_intro,
  ◌==◌, ◌&&◌, is_positive, take_within, length-take, length-drop, drop_further, take-append-drop,
}
use mathlib.Core.List.{append_assoc, append-nil}
use dsp_sim_bridge.Pc.PcSocket.{
  Os, Round, ended, next, after_call, size_limit, int_max, wait_writable, send_round, send_on,
  send_loop, socket_send_all,
}

-- What a descriptor's `send` documents: it takes a number of octets from the front of those that it
-- is given, and none when it would block; `sent` are all that it has taken. It would block no more than
-- `patience` times.
pub record SendLaws {S : Type 0} (os : Os S) (fd : ℕ) : Type 0 where
  pub sent : S → List ℕ
  pub patience : S → ℕ
  pub poll_keeps :
      (t : ℕ) (s : S)
      → (sent (os.poll_out fd t s).2 ≡ sent s) × (patience (os.poll_out fd t s).2 ≤ patience s)
  pub send_takes :
      (d : List ℕ) (n : ℕ) (s : S)
      → (os.send fd d s).0 ≡ some n
      → (n ≤ length d)
        × (sent (os.send fd d s).2 ≡ sent s ++ take n d)
        × (patience (os.send fd d s).2 ≤ patience s)
  pub send_blocks :
      (d : List ℕ) (s : S)
      → (os.send fd d s).0 ≡ none
      → (os.send fd d s).1 ≡ true
      → (sent (os.send fd d s).2 ≡ sent s) × (patience (os.send fd d s).2 < patience s)

pub size_limit_bound : (n : ℕ) → size_limit n ≤ n
size_limit_bound n =
    if_intro (λ m. m ≤ n) (ltb n int_max) (λ _. omega arith) (λ f. ground (arith, f))

none_left : (l : List ℕ) → length l ≡ 0 → l ≡ []
none_left [] e = refl
none_left (x ∷ l) e = absurd (omega arith)

module _ {S : Type 0} {os : Os S} {fd : ℕ} (laws : SendLaws os fd) (data_octets : List ℕ)
    (small : length data_octets < 2 ^ 32) where
  -- What is left of the octets and of the patience.
  abbrev left : ℕ → S → ℕ
  left total s = (length data_octets - total) + laws.patience s

  -- A round from `total` octets on ends the loop, or goes on closer to the end.
  data IsSending (total : ℕ) (s : S) : Round → S → Type 0 where
    stops : (s1 : S) → IsSending total s (ended failed) s1
    goes :
        (more : ℕ) (s1 : S)
        → total ≤ more
        → more ≤ length data_octets
        → laws.sent s1 ≡ laws.sent s ++ take (more - total) (drop total data_octets)
        → left more s1 < left total s
        → IsSending total s (next more) s1

  record IsRound (total : ℕ) (s : S) (out : Round × S) : Type 0 where
    round : IsSending total s out.0 out.1

  after_call-IsSending :
      (total size : ℕ) (s s1 s2 : S) (blocked : Bool) (count : Option ℕ)
      → total < length data_octets
      → size ≤ length data_octets - total
      → laws.sent s1 ≡ laws.sent s
      → laws.patience s1 ≤ laws.patience s
      → ((n : ℕ)
          → count ≡ some n
          → (n ≤ length (take size (drop total data_octets)))
            × (laws.sent s2 ≡ laws.sent s1 ++ take n (take size (drop total data_octets)))
            × (laws.patience s2 ≤ laws.patience s1))
      → (count ≡ none
          → blocked ≡ true
          → (laws.sent s2 ≡ laws.sent s1) × (laws.patience s2 < laws.patience s1))
      → IsRound total s (after_call total blocked count, s2)
  unfolding after_call
  after_call-IsSending total size s s1 s2 blocked none less fits same_sent same takes blocks =
      if_intro (λ r. IsRound total s (r, s2)) blocked
        (λ t.
          let (kept, fewer) = blocks refl t in
          let zero_more : total - total ≡ 0 = omega arith in
          let nothing_new : laws.sent s2
              ≡ laws.sent s ++ take (total - total) (drop total data_octets) =
            rw zero_more (kept ∙ same_sent ∙ sym (append-nil (laws.sent s))) in
          record {
            round =
                IsSending.goes total s2 (omega arith) (omega arith) nothing_new
                  (omega (arith, same, fewer));
          })
        (λ _. record { round = IsSending.stops s2 })
  after_call-IsSending total size s s1 s2 blocked (some n) less fits same_sent same takes blocks =
      let (room, sent, patient) = takes n refl in
      if_intro (λ r. IsRound total s (r, s2)) (n == 0) (λ _. record { round = IsSending.stops s2 })
        (λ f.
          let rest = drop total data_octets in
          let within : n ≤ size = omega (arith, room, length-take size rest) in
          let in_range : add32 total n ≡ total + n = omega (arith, small, less, fits, within) in
          let counted : total + n - total ≡ n = omega arith in
          record {
            round = rw in_range (
                IsSending.goes (total + n) s2 (omega arith) (omega (arith, less, fits, within))
                  (rw counted (
                    sent
                    ∙ ap (λ l. l ++ take n (take size rest)) same_sent
                    ∙ ap (λ l. laws.sent s ++ l) (take_within n size rest within)))
                  (ground (arith, f, less, fits, within, same, patient)));
          })

  send_round-IsSending :
      (total t : ℕ) (s : S)
      → total < length data_octets
      → IsRound total s (send_round os fd data_octets total t s)
  unfolding send_round wait_writable
  send_round-IsSending total t s less =
      let (result, ready, s1) = os.poll_out fd t s in
      let (same, patient) = laws.poll_keeps t s in
      let size = size_limit (length data_octets - total) in
      let piece = take size (drop total data_octets) in
      let (count, blocked, s2) = os.send fd piece s1 in
      if_intro (IsRound total s) (not (is_positive result && ready))
        (λ _. record { round = IsSending.stops s1 })
        (λ _.
          after_call-IsSending total size s s1 s2 blocked count less
            (size_limit_bound (length data_octets - total)) same patient
            (λ n e. laws.send_takes piece n s1 e) (λ e b. laws.send_blocks piece s1 e b))

  -- The loop has returned, and if it returned 0, all octets from `total` on are sent.
  record IsDone (total : ℕ) (s : S) (out : Option ℤ × S) : Type 0 where
    returned : ¬ (out.0 ≡ none)
    all_sent : out.0 ≡ some (pos 0) → laws.sent out.1 ≡ laws.sent s ++ drop total data_octets

  send_on-IsDone :
      (total : ℕ) (s : S) (rest : ℕ → S → Option ℤ × S) (round : Round) (s1 : S)
      → ((more : ℕ) (s2 : S)
          → more ≤ length data_octets
          → left more s2 < left total s
          → IsDone more s2 (rest more s2))
      → IsSending total s round s1
      → IsDone total s (send_on rest round s1)
  unfolding send_on
  send_on-IsDone total s rest _ _ again (IsSending.stops s1) = record {
    returned = λ e. cc;
    all_sent = λ e. cc;
  }
  send_on-IsDone total s rest _ _ again (IsSending.goes more s1 forward within sent closer) =
      let done = again more s1 within closer in
      let d = drop total data_octets in
      let further : drop (more - total) d ≡ drop more data_octets =
        drop_further total (more - total) data_octets
        ∙ ap (λ n. drop n data_octets) (omega arith) in
      record {
        returned = done.returned;
        all_sent = λ e.
            done.all_sent e
            ∙ ap (λ l. l ++ drop more data_octets) sent
            ∙ append_assoc (laws.sent s) (take (more - total) d) (drop more data_octets)
            ∙ ap (λ l. laws.sent s ++ (take (more - total) d ++ l)) (sym further)
            ∙ ap (λ l. laws.sent s ++ l) (take-append-drop (more - total) d);
      }

  send_loop-IsDone :
      (fuel total t : ℕ) (s : S)
      → total ≤ length data_octets
      → left total s < fuel
      → IsDone total s (send_loop os fuel fd data_octets total t s)
  unfolding send_loop
  send_loop-IsDone zero total t s within enough = absurd (omega arith)
  send_loop-IsDone (suc fuel) total t s within enough =
      let (round, s1) = send_round os fd data_octets total t s in
      if_intro (IsDone total s) (ltb total (length data_octets))
        (λ h.
          send_on-IsDone total s (λ more s2. send_loop os fuel fd data_octets more t s2) round s1
            (λ more s2 reach closer.
              send_loop-IsDone fuel more t s2 reach (omega (arith, closer, enough)))
            (send_round-IsSending total t s (ltb→lt total (length data_octets) h)).round)
        (λ f.
          let all : length (drop total data_octets) ≡ 0 =
            ground (arith, f, length-drop total data_octets) in
          record {
            returned = λ e. cc;
            all_sent = λ _. sym (
                ap (λ l. laws.sent s ++ l) (none_left (drop total data_octets) all)
                ∙ append-nil (laws.sent s));
          })

-- With as many rounds as octets and refusals to come, and one more, `send_all` returns; and if it
-- returns 0, the descriptor has taken all of the octets, once and in order.
pub socket_send_all-IsDone :
    {S : Type 0} {os : Os S} {fd : ℕ} (laws : SendLaws os fd) (data_octets : List ℕ) (t fuel : ℕ)
    (s : S)
    → length data_octets < 2 ^ 32
    → length data_octets + laws.patience s < fuel
    → let (result, s1) = socket_send_all os fuel fd data_octets t s in
      (¬ (result ≡ none)) × (result ≡ some (pos 0) → laws.sent s1 ≡ laws.sent s ++ data_octets)
unfolding socket_send_all
socket_send_all-IsDone laws data_octets t fuel s small enough =
    let done =
      send_loop-IsDone laws data_octets small fuel 0 t s (omega arith) (omega (arith, enough)) in
    (done.returned, done.all_sent)
