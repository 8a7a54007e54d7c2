-- ===== src/Common/Lists.antt =====
-- Buffers as lists with native indices: the C arrays of words and octets.
use Prim.Native.Nat.{ℕ, zero, suc, ◌+◌, ◌-◌, ◌≤◌, ◌<◌, min}
use mathlib.Core.Path.{◌≡◌, refl, sym, ap, ◌∙◌}
use mathlib.Core.List.{List, [], ◌∷◌, ◌++◌}
use native.Mathlib.Omega.{arith}

module _ {ℓ} {A : Type ℓ} where
  abbrev pub length : List A → ℕ
  length [] = 0
  length (x ∷ xs) = suc (length xs)

  abbrev pub get_or : List A → ℕ → A → A
  get_or [] i d = d
  get_or (x ∷ xs) zero d = x
  get_or (x ∷ xs) (suc i) d = get_or xs i d

  abbrev pub take : ℕ → List A → List A
  take zero xs = []
  take (suc n) [] = []
  take (suc n) (x ∷ xs) = x ∷ take n xs

  abbrev pub drop : ℕ → List A → List A
  drop zero xs = xs
  drop (suc n) [] = []
  drop (suc n) (x ∷ xs) = drop n xs

  -- `memcpy(&buffer[i], values, ...)`: the values replace what stands from index `i` on. What
  -- would fall beyond the end is dropped; the bounds theorems rule that case out.
  abbrev pub write_at : ℕ → List A → List A → List A
  write_at i values [] = []
  write_at zero [] (x ∷ xs) = x ∷ xs
  write_at zero (v ∷ vs) (x ∷ xs) = v ∷ write_at zero vs xs
  write_at (suc i) vs (x ∷ xs) = x ∷ write_at i vs xs

  pub length-write_at : (i : ℕ) (vs xs : List A) → length (write_at i vs xs) ≡ length xs
  length-write_at i vs [] = refl
  length-write_at zero [] (x ∷ xs) = refl
  length-write_at zero (v ∷ vs) (x ∷ xs) = ap suc (length-write_at zero vs xs)
  length-write_at (suc i) vs (x ∷ xs) = ap suc (length-write_at i vs xs)

  take-write_at-zero :
      (vs xs : List A) → length vs ≤ length xs → take (length vs) (write_at zero vs xs) ≡ vs
  take-write_at-zero [] xs h = refl
  take-write_at-zero (v ∷ vs) [] h = absurd (omega arith)
  take-write_at-zero (v ∷ vs) (x ∷ xs) h = ap (λ l. v ∷ l) (take-write_at-zero vs xs (omega arith))

  -- Up to the end of a write that fits stand the old words, then the new ones.
  pub take-write_at :
      (i k : ℕ) (vs xs : List A)
      → k ≡ i + length vs
      → k ≤ length xs
      → take k (write_at i vs xs) ≡ take i xs ++ vs
  take-write_at zero k vs xs e h =
      let k' : k ≡ length vs = omega arith in rw k' (take-write_at-zero vs xs (omega arith))
  take-write_at (suc i) zero vs xs e h = absurd (omega arith)
  take-write_at (suc i) (suc k) vs [] e h = absurd (omega arith)
  take-write_at (suc i) (suc k) vs (x ∷ xs) e h =
      ap (λ l. x ∷ l) (take-write_at i k vs xs (omega arith) (omega arith))

  -- A write leaves what stands before it.
  pub get_or-write_at_before :
      (i j : ℕ) (vs xs : List A) (d : A) → j < i → get_or (write_at i vs xs) j d ≡ get_or xs j d
  get_or-write_at_before i j vs [] d h = refl
  get_or-write_at_before zero j vs (x ∷ xs) d h = absurd (omega arith)
  get_or-write_at_before (suc i) zero vs (x ∷ xs) d h = refl
  get_or-write_at_before (suc i) (suc j) vs (x ∷ xs) d h =
      get_or-write_at_before i j vs xs d (omega arith)

  pub length-append : (xs ys : List A) → length (xs ++ ys) ≡ length xs + length ys
  length-append [] ys = omega arith
  length-append (x ∷ xs) ys = omega (arith, length-append xs ys)

  pub take-append-drop : (n : ℕ) (xs : List A) → take n xs ++ drop n xs ≡ xs
  take-append-drop zero xs = refl
  take-append-drop (suc n) [] = refl
  take-append-drop (suc n) (x ∷ xs) = ap (λ l. x ∷ l) (take-append-drop n xs)

  pub length-take : (n : ℕ) (xs : List A) → length (take n xs) ≡ min n (length xs)
  length-take zero xs = omega arith
  length-take (suc n) [] = omega arith
  length-take (suc n) (x ∷ xs) = omega (arith, length-take n xs)

  pub get_or-drop : (n i : ℕ) (xs : List A) (d : A) → get_or (drop n xs) i d ≡ get_or xs (n + i) d
  get_or-drop zero i xs d = let e : 0 + i ≡ i = omega arith in rw e refl
  get_or-drop (suc n) i [] d = refl
  get_or-drop (suc n) i (x ∷ xs) d =
      let e : suc n + i ≡ suc (n + i) = omega arith in rw e (get_or-drop n i xs d)

  -- A piece taken after another is one piece.
  pub take-add : (a b k : ℕ) (xs : List A) → k ≡ a + b → take k xs ≡ take a xs ++ take b (drop a xs)
  take-add zero b k xs e = let e' : k ≡ b = omega arith in rw e'
  take-add (suc a) b zero xs e = absurd (omega arith)
  take-add (suc a) zero (suc k) [] e = refl
  take-add (suc a) (suc b) (suc k) [] e = refl
  take-add (suc a) b (suc k) (x ∷ xs) e = ap (λ l. x ∷ l) (take-add a b k xs (omega arith))

  pub take_within : (n m : ℕ) (xs : List A) → n ≤ m → take n (take m xs) ≡ take n xs
  take_within zero m xs le = refl
  take_within (suc n) zero xs le = absurd (omega arith)
  take_within (suc n) (suc m) [] le = refl
  take_within (suc n) (suc m) (x ∷ xs) le = ap (λ l. x ∷ l) (take_within n m xs (omega arith))

  pub length-drop : (n : ℕ) (xs : List A) → length (drop n xs) ≡ length xs - n
  length-drop zero xs = omega arith
  length-drop (suc n) [] = omega arith
  length-drop (suc n) (x ∷ xs) = omega (arith, length-drop n xs)

  drop_nil : (n : ℕ) → drop n [] ≡ []
  drop_nil zero = refl
  drop_nil (suc n) = refl

  pub drop_further : (a b : ℕ) (xs : List A) → drop b (drop a xs) ≡ drop (a + b) xs
  drop_further zero b xs = let e : 0 + b ≡ b = omega arith in rw e refl
  drop_further (suc a) b [] = drop_nil b ∙ sym (drop_nil (suc a + b))
  drop_further (suc a) b (x ∷ xs) =
      let e : suc a + b ≡ suc (a + b) = omega arith in rw e (drop_further a b xs)
