-- ===== src/Pc/PcSocket/Tests.antt =====
-- `c2837x_socket_send_all` and `c2837x_socket_recv_exact` on a descriptor that would block once and takes three octets at a time.
use dsp_sim_bridge.Common.{
  ℕ, ◌-◌, ◌≡◌, ◌≤◌, ◌<◌, refl, ap, Bool, true, false, Option, none, some, List, [], ◌∷◌, ◌++◌, pos,
  take, drop, min, length, arith, ◌==◌, if◌then◌else◌, if_intro, sym, length-take, take-append-drop,
}
use dsp_sim_bridge.Pc.PcSocket.{
  Os, after_call, wait_readable, recv_round, recv_on, recv_loop, socket_send_all, socket_recv_exact,
}
use dsp_sim_bridge.Pc.PcSocket.Arrived.{RecvLaws, socket_recv_exact-IsDone}
use dsp_sim_bridge.Pc.PcSocket.Exact.{SendLaws, socket_send_all-IsDone}

-- What was taken, what comes, and how often a call will still block.
record Line : Type 0 where
  taken : List ℕ
  coming : List ℕ
  blocks : ℕ

unfoldable line_send : ℕ → List ℕ → Line → Option ℕ × Bool × Line
line_send fd d l =
    if l.blocks == 0
    then (some (min 3 (length d)), false, record l { taken = l.taken ++ take (min 3 (length d)) d })
    else (none, true, record l { blocks = l.blocks - 1 })

unfoldable line_recv : ℕ → ℕ → Line → Option ℕ × Bool × List ℕ × Line
line_recv fd n l =
    let octets_ = take (min 3 n) l.coming in
    if l.blocks == 0
    then (some (length octets_), false, octets_, record l { coming = drop (min 3 n) l.coming })
    else (none, true, [], record l { blocks = l.blocks - 1 })

abbrev line_os : Os Line
line_os = record {
  poll_out = λ fd t l. (pos 1, true, l);
  poll_in = λ fd t l. (pos 1, true, l);
  send = line_send;
  recv = line_recv;
}

line_takes :
    (d : List ℕ) (n : ℕ) (l : Line)
    → (line_send 5 d l).0 ≡ some n
    → (n ≤ length d)
      × ((line_send 5 d l).2.taken ≡ l.taken ++ take n d)
      × ((line_send 5 d l).2.blocks ≤ l.blocks)
unfolding line_send
line_takes d n l =
    if_intro
      (λ (out : Option ℕ × Bool × Line).
        out.0 ≡ some n
        → (n ≤ length d) × (out.2.taken ≡ l.taken ++ take n d) × (out.2.blocks ≤ l.blocks))
      (l.blocks == 0)
      (λ _ e.
        let same : min 3 (length d) ≡ n = cc in
        (omega (arith, same), ap (λ m. l.taken ++ take m d) same, omega arith))
      (λ _ e. cc)

line_blocks :
    (d : List ℕ) (l : Line)
    → (line_send 5 d l).0 ≡ none
    → (line_send 5 d l).1 ≡ true
    → ((line_send 5 d l).2.taken ≡ l.taken) × ((line_send 5 d l).2.blocks < l.blocks)
unfolding line_send
line_blocks d l =
    if_intro
      (λ (out : Option ℕ × Bool × Line).
        out.0 ≡ none → out.1 ≡ true → (out.2.taken ≡ l.taken) × (out.2.blocks < l.blocks))
      (l.blocks == 0) (λ _ e b. cc) (λ f e b. (refl, ground (arith, f)))

abbrev line_laws : SendLaws line_os 5
line_laws = record {
  sent = λ l. l.taken;
  patience = λ l. l.blocks;
  poll_keeps = λ t l. (refl, omega arith);
  send_takes = line_takes;
  send_blocks = line_blocks;
}

abbrev fresh_line : Line
fresh_line = record { taken = 9 ∷ []; coming = 1 ∷ 2 ∷ 3 ∷ 4 ∷ 5 ∷ []; blocks = 1 }

socket_send_all-IsDone_example :
    let (result, l1) = socket_send_all line_os 6 5 (1 ∷ 2 ∷ 3 ∷ 4 ∷ []) 100 fresh_line in
    (¬ (result ≡ none)) × (result ≡ some (pos 0) → l1.taken ≡ 9 ∷ 1 ∷ 2 ∷ 3 ∷ 4 ∷ [])
socket_send_all-IsDone_example =
    socket_send_all-IsDone line_laws (1 ∷ 2 ∷ 3 ∷ 4 ∷ []) 100 6 fresh_line (omega arith)
      (omega arith)

line_hands_over :
    (size n : ℕ) (l : Line)
    → (line_recv 5 size l).0 ≡ some n
    → (n ≤ size)
      × (length (line_recv 5 size l).2 ≡ n)
      × (l.coming ≡ (line_recv 5 size l).2 ++ (line_recv 5 size l).3.coming)
      × ((line_recv 5 size l).3.blocks ≤ l.blocks)
unfolding line_recv
line_hands_over size n l =
    if_intro
      (λ (out : Option ℕ × Bool × List ℕ × Line).
        out.0 ≡ some n
        → (n ≤ size)
          × (length out.2 ≡ n)
          × (l.coming ≡ out.2 ++ out.3.coming)
          × (out.3.blocks ≤ l.blocks))
      (l.blocks == 0)
      (λ _ e.
        let same : length (take (min 3 size) l.coming) ≡ n = cc in
        (
          omega (arith, same, length-take (min 3 size) l.coming),
          same,
          sym (take-append-drop (min 3 size) l.coming),
          omega arith,
        ))
      (λ _ e. cc)

line_recv_blocks :
    (size : ℕ) (l : Line)
    → (line_recv 5 size l).0 ≡ none
    → (line_recv 5 size l).1 ≡ true
    → ((line_recv 5 size l).2 ≡ [])
      × ((line_recv 5 size l).3.coming ≡ l.coming)
      × ((line_recv 5 size l).3.blocks < l.blocks)
unfolding line_recv
line_recv_blocks size l =
    if_intro
      (λ (out : Option ℕ × Bool × List ℕ × Line).
        out.0 ≡ none
        → out.1 ≡ true
        → (out.2 ≡ []) × (out.3.coming ≡ l.coming) × (out.3.blocks < l.blocks))
      (l.blocks == 0) (λ _ e b. cc) (λ f e b. (refl, refl, ground (arith, f)))

abbrev line_recv_laws : RecvLaws line_os 5
line_recv_laws = record {
  incoming = λ l. l.coming;
  patience = λ l. l.blocks;
  poll_keeps = λ t l. (refl, omega arith);
  recv_takes = line_hands_over;
  recv_blocks = line_recv_blocks;
}

socket_recv_exact-IsDone_example :
    let (result, octets_, l1) = socket_recv_exact line_os 6 5 4 100 fresh_line in
    (¬ (result ≡ none))
    × (result ≡ some (pos 0)
        → (length octets_ ≡ 4) × (1 ∷ 2 ∷ 3 ∷ 4 ∷ 5 ∷ [] ≡ octets_ ++ l1.coming))
socket_recv_exact-IsDone_example =
    socket_recv_exact-IsDone line_recv_laws 4 100 6 fresh_line (omega arith) (omega arith)

-- Four octets in two pieces, behind a call that would block.
fresh_line_received :
    let (result, octets_, l1) = socket_recv_exact line_os 6 5 4 100 fresh_line in
    (result ≡ some (pos 0)) × (octets_ ≡ 1 ∷ 2 ∷ 3 ∷ 4 ∷ []) × (l1.coming ≡ 5 ∷ [])
unfolding socket_recv_exact recv_loop recv_on recv_round wait_readable after_call line_recv
fresh_line_received = (refl, refl, refl)
