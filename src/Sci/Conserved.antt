-- ===== src/Sci/Conserved.antt =====
-- `receive` of dsp/src/c2837x_block_sci.c loses, repeats and reorders no octet.
use dsp_sim_bridge.Common.{
  ℕ, zero, suc, ◌+◌, ◌*◌, ◌^◌, ◌<◌, ◌≡◌, ◌≤◌, refl, sym, ap, ◌∙◌, ◌⊎◌, inr, Bool, true, false, List,
  [], ◌∷◌, ◌++◌, ℤ, pos, ◌&&◌, not, ◌!=◌, leb, ltb, add32, arith, length, length-append, low_octet,
  high_octet, join_octets, octets, length-octets, is_negative, if_intro,
}
use mathlib.Core.List.{append_assoc}
use dsp_sim_bridge.Sci.Types.{Peripheral, Hardware, Channel}
use dsp_sim_bridge.Sci.Receive.{
  Progress, read_octet, read_word, read_pairs, finish_staged, stage_octet, receive_octets,
}
use dsp_sim_bridge.Sci.Line.{Inlet, behind_staged, stream}

low_octet-join_octets :
    (a b : ℕ) → low_octet (join_octets (low_octet a) (low_octet b)) ≡ low_octet a
low_octet-join_octets a b = omega arith

high_octet-join_octets :
    (a b : ℕ) → high_octet (join_octets (low_octet a) (low_octet b)) ≡ low_octet b
high_octet-join_octets a b = omega arith

octets-append : (ws vs : List ℕ) → octets (ws ++ vs) ≡ octets ws ++ octets vs
octets-append [] vs = refl
octets-append (w ∷ ws) vs = ap (λ os. low_octet w ∷ high_octet w ∷ os) (octets-append ws vs)

-- What two pieces took from the front of a stream, they took together.
octets-pieces :
    (ws vs : List ℕ) {os rest : List ℕ} (left : List ℕ)
    → os ≡ octets ws ++ rest
    → rest ≡ octets vs ++ left
    → os ≡ octets (ws ++ vs) ++ left
octets-pieces ws vs left e e' =
    e
    ∙ ap (λ l. octets ws ++ l) e'
    ∙ sym (append_assoc (octets ws) (octets vs) left)
    ∙ ap (λ l. l ++ left) (sym (octets-append ws vs))

-- Nothing is read behind a staged octet.
behind_staged-read :
    (staged : Bool) (octet available : ℕ) (os rest words : List ℕ)
    → os ≡ octets words ++ rest
    → 2 * length words ≤ available
    → (1 ≤ available → staged ≡ false)
    → behind_staged staged octet os ≡ octets words ++ behind_staged staged octet rest
behind_staged-read false octet available os rest words e le free = e
behind_staged-read true octet available os rest [] e le free = ap (λ l. low_octet octet ∷ l) e
behind_staged-read true octet available os rest (w ∷ ws) e le free =
    let clash : true ≡ false = free (omega arith) in cc

-- The outcome of `receive` with `capacity` octets of room on a channel whose octets were `os`:
-- it fails, or what it stored and what `view` shows of the channel then make up those octets.
pub record IsConserved {H : Type 0} (view : Channel H → List ℕ) (capacity : ℕ) (os : List ℕ)
    (out : ℤ × List ℕ × Channel H) : Type 0 where
  pub outcome :
      (is_negative out.0 ≡ true)
      ⊎ ((out.0 ≡ pos (2 * length out.1))
          × (2 * length out.1 ≤ capacity)
          × (os ≡ octets out.1 ++ view out.2))

module _ {H : Type 0} {hw : Hardware H} {p : Peripheral} (inlet : Inlet hw p) where
  -- The octets of a word that is read are the next two.
  read_word_lem :
      (h : H)
      → 2 ≤ length (inlet.incoming h)
      → inlet.incoming h ≡ octets ((read_word hw p h).0 ∷ []) ++ inlet.incoming (read_word hw p h).1
  unfolding read_word read_octet
  read_word_lem h few =
      let h1 = (hw.read_rxbuf p h).1 in
      let first = inlet.read_next h (omega (arith, few)) in
      let shorter : length (inlet.incoming h) ≡ suc (length (inlet.incoming h1)) =
        ap length first in
      let second = inlet.read_next h1 (omega (arith, few, shorter)) in
      let lo = (hw.read_rxbuf p h).0 in
      let hi = (hw.read_rxbuf p h1).0 in
      rw (low_octet-join_octets lo hi, high_octet-join_octets lo hi)
        (first ∙ ap (λ os. low_octet lo ∷ os) second)

  -- What the `while` loop does with the FIFO.
  record IsRead (available produced capacity : ℕ) (h : H) (t : Progress H) : Type 0 where
    octets_kept : inlet.incoming h ≡ octets t.words ++ inlet.incoming t.state
    produced_counted : t.produced_octets ≡ produced + 2 * length t.words
    available_counted : available ≡ t.available_octets + 2 * length t.words
    capacity_kept : produced ≤ capacity → t.produced_octets ≤ capacity

  none-IsRead :
      (available produced capacity : ℕ) (h : H)
      → IsRead available produced capacity h (record {
        available_octets = available;
        produced_octets = produced;
        words = [];
        state = h;
      })
  none-IsRead available produced capacity h = record {
    octets_kept = refl;
    produced_counted = omega arith;
    available_counted = omega arith;
    capacity_kept = λ le. le;
  }

  read_pairs-IsRead :
      (available produced capacity : ℕ) (h : H)
      → available ≤ length (inlet.incoming h)
      → produced + available < 2 ^ 32
      → IsRead available produced capacity h (read_pairs hw p available produced capacity h)
  unfolding read_pairs
  read_pairs-IsRead zero produced capacity h le small = none-IsRead 0 produced capacity h
  read_pairs-IsRead (suc zero) produced capacity h le small = none-IsRead 1 produced capacity h
  read_pairs-IsRead (suc (suc available)) produced capacity h le small =
      let h1 = (read_word hw p h).1 in
      let split = read_word_lem h (omega (arith, le)) in
      let shorter : length (inlet.incoming h) ≡ suc (suc (length (inlet.incoming h1))) =
        ap length split in
      let sum : add32 produced 2 ≡ produced + 2 = omega (arith, small) in
      let rest =
        read_pairs-IsRead available (add32 produced 2) capacity h1 (omega (arith, le, shorter))
          (omega (arith, sum, small)) in
      if_intro (IsRead (suc (suc available)) produced capacity h) (leb (add32 produced 2) capacity)
        (λ t. record {
          octets_kept =
              rw split (ap (λ os. octets ((read_word hw p h).0 ∷ []) ++ os) rest.octets_kept);
          produced_counted = omega (arith, rest.produced_counted, sum);
          available_counted = omega (arith, rest.available_counted);
          capacity_kept = λ _. rest.capacity_kept (ground (arith, t));
        })
        (λ f. none-IsRead (suc (suc available)) produced capacity h)

  -- What is known when the staged octet has been dealt with.
  record IsUnstaged (c : Channel H) (s : Progress (Channel H)) : Type 0 where
    octets_kept : stream inlet c ≡ octets s.words ++ stream inlet s.state
    produced_counted : s.produced_octets ≡ 2 * length s.words
    produced_bound : s.produced_octets ≤ 2
    level_kept : s.available_octets ≤ length (inlet.incoming s.state.hardware)
    level_bound : s.available_octets ≤ 16
    staging_free : 1 ≤ s.available_octets → s.state.runtime.rx_staging_valid ≡ false

  stream-staged :
      (c : Channel H)
      → c.runtime.rx_staging_valid ≡ true
      → stream inlet c ≡ low_octet c.runtime.rx_staging_octet ∷ inlet.incoming c.hardware
  stream-staged c valid = rw valid refl

  stream-unstaged :
      (c : Channel H)
      → c.runtime.rx_staging_valid ≡ false
      → stream inlet c ≡ inlet.incoming c.hardware
  stream-unstaged c free = rw free refl

  finish_staged-IsUnstaged :
      (available : ℕ) (c : Channel H)
      → available ≤ length (inlet.incoming c.hardware)
      → available ≤ 16
      → IsUnstaged c (finish_staged hw p available c)
  unfolding finish_staged read_octet
  finish_staged-IsUnstaged available c le bound =
      if_intro (IsUnstaged c) (c.runtime.rx_staging_valid && (available != 0))
        (λ t.
          let valid : c.runtime.rx_staging_valid ≡ true = ground arith in
          let some_left : 1 ≤ available = ground arith in
          let first = inlet.read_next c.hardware (omega arith) in
          let shorter = ap length first in
          let lo = c.runtime.rx_staging_octet in
          let hi = (hw.read_rxbuf p c.hardware).0 in
          record {
            octets_kept =
                rw (low_octet-join_octets lo hi, high_octet-join_octets lo hi)
                  (stream-staged c valid ∙ ap (λ os. low_octet lo ∷ os) first);
            produced_counted = refl;
            produced_bound = omega arith;
            level_kept = omega arith;
            level_bound = omega arith;
            staging_free = λ _. refl;
          })
        (λ f. record {
          octets_kept = refl;
          produced_counted = refl;
          produced_bound = omega arith;
          level_kept = le;
          level_bound = bound;
          staging_free = λ some_left. ground arith;
        })

  stage_octet-stream :
      (capacity : ℕ) (s : Progress (Channel H))
      → s.available_octets ≤ length (inlet.incoming s.state.hardware)
      → stream inlet s.state ≡ stream inlet (stage_octet hw p capacity s)
  unfolding stage_octet read_octet
  stage_octet-stream capacity s le =
      if_intro (λ c. stream inlet s.state ≡ stream inlet c)
        (s.available_octets != 0
          && not s.state.runtime.rx_staging_valid
          && ltb s.produced_octets capacity)
        (λ t.
          let free : s.state.runtime.rx_staging_valid ≡ false = ground arith in
          let some_left : 1 ≤ s.available_octets = ground arith in
          let octet = (hw.read_rxbuf p s.state.hardware).0 in
          let again : low_octet (low_octet octet) ≡ low_octet octet = omega arith in
          rw again (stream-unstaged s.state free ∙ inlet.read_next s.state.hardware (omega arith)))
        (λ f. refl)

  -- Reading whole words moves the front of the stream, whether or not an octet is staged: while
  -- one is, nothing is left to read.
  read-stream :
      (available produced capacity : ℕ) (c : Channel H) (t : Progress H)
      → IsRead available produced capacity c.hardware t
      → (1 ≤ available → c.runtime.rx_staging_valid ≡ false)
      → stream inlet c ≡ octets t.words ++ stream inlet (record c { hardware = t.state })
  read-stream available produced capacity c t r free =
      behind_staged-read c.runtime.rx_staging_valid c.runtime.rx_staging_octet available
        (inlet.incoming c.hardware) (inlet.incoming t.state) t.words r.octets_kept
        (omega (arith, r.available_counted)) free

  level_left :
      (available produced capacity : ℕ) (h : H) (t : Progress H)
      → IsRead available produced capacity h t
      → available ≤ length (inlet.incoming h)
      → t.available_octets ≤ length (inlet.incoming t.state)
  level_left available produced capacity h t r le = omega (
    arith,
    r.available_counted,
    le,
    ap length r.octets_kept,
    length-append (octets t.words) (inlet.incoming t.state),
    length-octets t.words,
  )

  pub receive_octets-IsConserved :
      (capacity : ℕ) (c : Channel H)
      → 2 ≤ capacity
      → IsConserved (stream inlet) capacity (stream inlet c) (receive_octets hw p capacity c)
  unfolding receive_octets
  receive_octets-IsConserved capacity c room =
      let (available, h1) = hw.rxffst p c.hardware in
      let c1 = record c { hardware = h1 } in
      let s = finish_staged hw p available c1 in
      let same = inlet.level_incoming c.hardware in
      let u =
        finish_staged-IsUnstaged available c1 (rw same (inlet.level c.hardware))
          (inlet.level_bound c.hardware) in
      let start : stream inlet c ≡ stream inlet c1 =
        ap (behind_staged c.runtime.rx_staging_valid c.runtime.rx_staging_octet) (sym same) in
      let t = read_pairs hw p s.available_octets s.produced_octets capacity s.state.hardware in
      let r =
        read_pairs-IsRead s.available_octets s.produced_octets capacity s.state.hardware
          u.level_kept (omega (arith, u.produced_bound, u.level_bound)) in
      let whole =
        read-stream s.available_octets s.produced_octets capacity s.state t r u.staging_free in
      let staged =
        stage_octet-stream capacity
          (record {
            available_octets = t.available_octets;
            produced_octets = t.produced_octets;
            words = [];
            state = record s.state { hardware = t.state };
          })
          (level_left s.available_octets s.produced_octets capacity s.state.hardware t r
            u.level_kept) in
      let count = length-append s.words t.words in
      record {
        outcome = inr (
          ap pos (omega (arith, u.produced_counted, r.produced_counted, count)),
          omega (
            arith,
            u.produced_counted,
            r.produced_counted,
            count,
            r.capacity_kept (omega (arith, u.produced_bound, room)),
          ),
          octets-pieces s.words t.words _ (start ∙ u.octets_kept)
              (whole ∙ ap (λ os. octets t.words ++ os) staged),
        );
      }
