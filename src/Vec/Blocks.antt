-- ===== src/Vec/Blocks.antt =====
-- vec.c: what the moves inside a block do to the items at its front.
use mathlib.Core.List.{map}
use task_spooler_plus.Base.{
  ℕ, zero, suc, ◌+◌, ◌≤◌, ◌<◌, ◌≡◌, refl, ap, List, [], ◌∷◌, ◌++◌, Option, none, some, get_elem?,
  set, remove_at, length, arith,
}
use task_spooler_plus.Vec.{take, drop, memmove, resized, place}

module _ {ℓ} {A : Type ℓ} where
  -- The list with an item put before the place `i`.
  abbrev pub insert_at : List A → ℕ → A → List A
  insert_at xs zero x = x ∷ xs
  insert_at [] (suc i) x = []
  insert_at (y ∷ xs) (suc i) x = y ∷ insert_at xs i x

  -- A block with the items at its front.
  abbrev pub block : List A → List (Option A) → List (Option A)
  block xs rest = map some xs ++ rest

  take-block :
      (xs : List A) (rest : List (Option A)) → take (length xs) (block xs rest) ≡ map some xs
  take-block [] rest = refl
  take-block (x ∷ xs) rest = ap (λ l. some x ∷ l) (take-block xs rest)

  drop-block : (xs : List A) (rest : List (Option A)) → drop (length xs) (block xs rest) ≡ rest
  drop-block [] rest = refl
  drop-block (x ∷ xs) rest = drop-block xs rest

  first-drop :
      (xs : List A) (o : Option A) (rest : List (Option A))
      → drop (length xs) (drop 1 (block xs (o ∷ rest))) ≡ rest
  first-drop [] o rest = refl
  first-drop (x ∷ xs) o rest = first-drop-tail xs o rest
    where
      first-drop-tail :
          (xs : List A) (o : Option A) (rest : List (Option A))
          → drop (suc (length xs)) (block xs (o ∷ rest)) ≡ rest
      first-drop-tail [] o rest = refl
      first-drop-tail (x ∷ xs) o rest = first-drop-tail xs o rest

  insert-front :
      (xs : List A) (x : A) (o : Option A) (rest : List (Option A)) (k : ℕ)
      → k ≡ length xs
      → set (memmove (block xs (o ∷ rest)) 1 0 k) 0 (some x) ≡ some x ∷ block xs rest
  unfolding memmove
  insert-front [] x o rest k e = rw e refl
  insert-front (y ∷ xs) x o rest k e = rw e (
      ap (λ l. some x ∷ some y ∷ l)
        (rw (take-block xs (o ∷ rest), first-drop (y ∷ xs) o rest) refl))

  -- The move of `vec_insert`, and its write.
  pub insert-block :
      (xs : List A) (i : ℕ) (x : A) (o : Option A) (rest : List (Option A)) (k : ℕ)
      → k + i ≡ length xs
      → set (memmove (block xs (o ∷ rest)) (suc i) i k) i (some x) ≡ block (insert_at xs i x) rest
  unfolding memmove
  insert-block xs zero x o rest k e = insert-front xs x o rest k (omega (arith, e))
  insert-block [] (suc i) x o rest k e = absurd (omega (arith, e))
  insert-block (y ∷ xs) (suc i) x o rest k e =
      ap (λ l. some y ∷ l) (insert-block xs i x o rest k (omega (arith, e)))

  drop-last :
      (xs : List A) (x : A) (rest : List (Option A))
      → (y : A) × (drop (length xs) (some x ∷ block xs rest) ≡ some y ∷ rest)
  drop-last [] x rest = (x, refl)
  drop-last (z ∷ xs) x rest = drop-last xs z rest

  -- The move of `vec_remove`. The last item stays behind, out of the size.
  pub remove-block :
      (xs : List A) (i : ℕ) (rest : List (Option A)) (k : ℕ)
      → k + suc i ≡ length xs
      → (y : A) × (memmove (block xs rest) i (suc i) k ≡ block (remove_at xs i) (some y ∷ rest))
  unfolding memmove
  remove-block [] i rest k e = absurd (omega (arith, e))
  remove-block (x ∷ xs) zero rest k e =
      let (y, d) = drop-last xs x rest in
      let n : k ≡ length xs = omega (arith, e) in (y, rw n (rw (take-block xs rest, d) refl))
  remove-block (x ∷ xs) (suc i) rest k e =
      let (y, d) = remove-block xs i rest k (omega (arith, e)) in (y, ap (λ l. some x ∷ l) d)

  pub set-block :
      (xs : List A) (i : ℕ) (x : A) (rest : List (Option A))
      → i < length xs
      → set (block xs rest) i (some x) ≡ block (set xs i x) rest
  set-block [] i x rest h = absurd (omega (arith, h))
  set-block (y ∷ xs) zero x rest h = refl
  set-block (y ∷ xs) (suc i) x rest h =
      ap (λ l. some y ∷ l) (set-block xs i x rest (omega (arith, h)))

  pub push-block :
      (xs : List A) (x : A) (o : Option A) (rest : List (Option A))
      → set (block xs (o ∷ rest)) (length xs) (some x) ≡ block (xs ++ x ∷ []) rest
  push-block [] x o rest = refl
  push-block (y ∷ xs) x o rest = ap (λ l. some y ∷ l) (push-block xs x o rest)

  pub place-block :
      (xs : List A) (i : ℕ) (rest : List (Option A))
      → i < length xs
      → place (block xs rest) i ≡ get_elem? xs i
  place-block [] i rest h = absurd (omega (arith, h))
  place-block (x ∷ xs) zero rest h = refl
  place-block (x ∷ xs) (suc i) rest h = place-block xs i rest (omega (arith, h))

  pub get-none : (xs : List A) (i : ℕ) → length xs ≤ i → get_elem? xs i ≡ none
  get-none [] i h = refl
  get-none (x ∷ xs) zero h = absurd (omega (arith, h))
  get-none (x ∷ xs) (suc i) h = get-none xs i (omega (arith, h))

  pub length-resized : (n : ℕ) (b : List (Option A)) → length (resized n b) ≡ n
  length-resized zero b = refl
  length-resized (suc n) [] = ap suc (length-resized n [])
  length-resized (suc n) (x ∷ b) = ap suc (length-resized n b)

  -- A block that grows keeps its items, and gets as many free places as it is longer.
  pub resized-block :
      (xs : List A) (rest : List (Option A)) (n : ℕ)
      → length xs ≤ n
      → (rest' : List (Option A)) × (resized n (block xs rest) ≡ block xs rest')
        × (length xs + length rest' ≡ n)
  resized-block [] rest n h = (resized n rest, refl, omega (arith, length-resized n rest))
  resized-block (x ∷ xs) rest zero h = absurd (omega (arith, h))
  resized-block (x ∷ xs) rest (suc n) h =
      let (r, e, k) = resized-block xs rest n (omega (arith, h)) in
      (r, ap (λ l. some x ∷ l) e, omega (arith, k))
