-- ===== src/Vec/Refines.antt =====
-- vec.c against lists: a vector represents a list, and each operation is the list's.
use task_spooler_plus.Base.{
  ℕ, zero, suc, ◌-◌, ◌*◌, ◌≤◌, ◌<◌, ◌≡◌, refl, ap, ◌∙◌, sym, subst, ◌⊎◌, inl, inr, List, [], ◌∷◌,
  ◌++◌, Option, none, some, Bool, true, false, Bool-cases, get_elem?, set, remove_at, length,
  length-set, length-append, length-remove_at, arith, ltb, leb, if◌then◌else◌,
}
use task_spooler_plus.Vec.{
  Vec, resized, memmove, vec_init, make_room, push_into, vec_push, vec_get, vec_set, insert_into,
  vec_insert, vec_remove,
}
use task_spooler_plus.Vec.Blocks.{
  block, insert_at, insert-block, remove-block, set-block, push-block, place-block, get-none,
}
use task_spooler_plus.Vec.Growth.{IsAllocator, Represents, split_rest, make_room_lem}

module _ {ℓ} {A : Type ℓ} where
  -- A vector represents the empty list when vec_init succeeds on it.
  pub vec_init-Represents :
      (grants : ℕ → Bool) (v : Vec A)
      → (vec_init grants v).1 ≡ true
      → Represents (vec_init grants v).0 []
  unfolding vec_init
  vec_init-Represents grants v h = elim (Bool-cases (grants (8 * 8))) [
    | inr t ↦ absurd (ground arith)
    | inl t ↦ rw t (record {
      rest = resized 8 [];
      at_front = refl;
      same_size = refl;
      whole_block = refl;
      not_empty = omega arith;
      in_memory = omega arith;
    })
  ]

  push_into-Represents :
      (v : Vec A) (xs : List A) (x : A)
      → Represents v xs
      → v.size < v.capacity
      → (v' : Vec A) × (push_into (v, true) x ≡ (v', true)) × Represents v' (xs ++ x ∷ [])
  push_into-Represents v xs x r l =
      let (o, l', e) = split_rest r.rest (omega (arith, l, r.whole_block, r.same_size)) in
      (
        record v { items = some (set (block xs r.rest) v.size (some x)); size = suc v.size },
        rw r.at_front refl,
        record {
          rest = l';
          at_front = ap some (rw (r.same_size, e) (push-block xs x o l'));
          same_size = omega (arith, r.same_size, length-append xs (x ∷ []));
          whole_block = omega (arith, r.whole_block, ap length e, length-append xs (x ∷ []));
          not_empty = r.not_empty;
          in_memory = r.in_memory;
        },
      )

  vec_push-into :
      (grants : ℕ → Bool) (v : Vec A) (b : List (Option A)) (x : A)
      → v.items ≡ some b
      → vec_push grants v x ≡ push_into (make_room grants v) x
  unfolding vec_push
  vec_push-into grants v b x e =
      ap
        (λ (o : Option (List (Option A))). elim o as (λ o. Vec A × Bool) [
          | none ↦ (v, false)
          | some b ↦ push_into (make_room grants v) x
        ])
        e

  -- On a vector that represents a list, and with an allocator that keeps to PTRDIFF_MAX, vec_push
  -- puts the item at the end; it fails only on a full vector, and changes nothing then.
  pub vec_push-Represents :
      (grants : ℕ → Bool) (v : Vec A) (xs : List A) (x : A)
      → IsAllocator grants
      → Represents v xs
      → ((vec_push grants v x ≡ (v, false)) × (v.capacity ≤ v.size))
        ⊎ ((v' : Vec A) × (vec_push grants v x ≡ (v', true)) × Represents v' (xs ++ x ∷ []))
  vec_push-Represents grants v xs x k r =
      let p = vec_push-into grants v (block xs r.rest) x r.at_front in
      elim (make_room_lem grants v xs k r) [
        | inl (e, f) ↦ inl (p ∙ rw e refl, f)
        | inr (v', e, r', l) ↦
            let (w, h, d) = push_into-Represents v' xs x r' l in inr (w, p ∙ rw e h, d)
      ]

  pub length-insert_at :
      (xs : List A) (i : ℕ) (x : A) → i ≤ length xs → length (insert_at xs i x) ≡ suc (length xs)
  length-insert_at xs zero x h = refl
  length-insert_at [] (suc i) x h = absurd (omega (arith, h))
  length-insert_at (y ∷ xs) (suc i) x h = ap suc (length-insert_at xs i x (omega (arith, h)))

  insert_into-Represents :
      (v : Vec A) (xs : List A) (i : ℕ) (x : A)
      → Represents v xs
      → v.size < v.capacity
      → i ≤ length xs
      → (v' : Vec A) × (insert_into (v, true) i x ≡ (v', true)) × Represents v' (insert_at xs i x)
  insert_into-Represents v xs i x r l h =
      let (o, l', e) = split_rest r.rest (omega (arith, l, r.whole_block, r.same_size)) in
      (
        record v {
          items = some (set (memmove (block xs r.rest) (suc i) i (v.size - i)) i (some x));
          size = suc v.size;
        },
        rw r.at_front refl,
        record {
          rest = l';
          at_front =
              ap some
                (rw e (insert-block xs i x o l' (v.size - i) (omega (arith, h, r.same_size))));
          same_size = omega (arith, r.same_size, length-insert_at xs i x h);
          whole_block = omega (arith, r.whole_block, ap length e, length-insert_at xs i x h);
          not_empty = r.not_empty;
          in_memory = r.in_memory;
        },
      )

  vec_insert-into :
      (grants : ℕ → Bool) (v : Vec A) (b : List (Option A)) (i : ℕ) (x : A)
      → v.items ≡ some b
      → i ≤ v.size
      → vec_insert grants v i x ≡ insert_into (make_room grants v) i x
  unfolding vec_insert
  vec_insert-into grants v b i x e h =
      let c : ltb v.size i ≡ false = ground arith in
      ap
        (λ (o : Option (List (Option A))). elim o as (λ o. Vec A × Bool) [
          | none ↦ (v, false)
          | some b ↦ if ltb v.size i then (v, false) else insert_into (make_room grants v) i x
        ])
        e
      ∙ rw c refl

  -- On a vector that represents a list, and with an allocator that keeps to PTRDIFF_MAX,
  -- vec_insert puts the item before a place within the list; it fails only on a full vector, and
  -- changes nothing then.
  pub vec_insert-Represents :
      (grants : ℕ → Bool) (v : Vec A) (xs : List A) (i : ℕ) (x : A)
      → IsAllocator grants
      → Represents v xs
      → i ≤ length xs
      → ((vec_insert grants v i x ≡ (v, false)) × (v.capacity ≤ v.size))
        ⊎ ((v' : Vec A) × (vec_insert grants v i x ≡ (v', true)) × Represents v' (insert_at xs i x))
  vec_insert-Represents grants v xs i x k r h =
      let p =
        vec_insert-into grants v (block xs r.rest) i x r.at_front (omega (arith, h, r.same_size)) in
      elim (make_room_lem grants v xs k r) [
        | inl (e, f) ↦ inl (p ∙ rw e refl, f)
        | inr (v', e, r', l) ↦
            let (w, j, d) = insert_into-Represents v' xs i x r' l h in inr (w, p ∙ rw e j, d)
      ]

  remove_at-out : (xs : List A) (i : ℕ) → length xs ≤ i → remove_at xs i ≡ xs
  remove_at-out [] i h = refl
  remove_at-out (y ∷ xs) zero h = absurd (omega (arith, h))
  remove_at-out (y ∷ xs) (suc i) h = ap (λ l. y ∷ l) (remove_at-out xs i (omega (arith, h)))

  -- On a vector that represents a list, vec_remove gives the item at a place and leaves the list
  -- without it, or changes nothing and gives NULL out of bounds.
  pub vec_remove-Represents :
      (v : Vec A) (xs : List A) (i : ℕ)
      → Represents v xs
      → Represents (vec_remove v i).0 (remove_at xs i) × ((vec_remove v i).1 ≡ get_elem? xs i)
  unfolding vec_remove
  vec_remove-Represents v xs i r = elim (Bool-cases (leb v.size i)) [
    | inl t ↦
        let out : length xs ≤ i = ground (arith, r.same_size) in
        rw (vec_remove, r.at_front, t)
          (subst (Represents v) (sym (remove_at-out xs i out)) r, sym (get-none xs i out))
    | inr t ↦
        let inside : i < length xs = ground (arith, r.same_size) in
        let (y, e) =
          remove-block xs i r.rest (v.size - i - 1) (omega (arith, inside, r.same_size)) in
        rw (vec_remove, r.at_front, t)
          (
            record {
              rest = some y ∷ r.rest;
              at_front = ap some e;
              same_size = omega (arith, r.same_size, length-remove_at xs i inside);
              whole_block = omega (arith, r.whole_block, length-remove_at xs i inside);
              not_empty = r.not_empty;
              in_memory = r.in_memory;
            },
            place-block xs i r.rest inside,
          )
  ]

  -- On a vector that represents a list, vec_get reads the list, and gives NULL out of its bounds.
  pub vec_get-Represents :
      (v : Vec A) (xs : List A) (i : ℕ) → Represents v xs → vec_get v i ≡ get_elem? xs i
  unfolding vec_get
  vec_get-Represents v xs i r = elim (Bool-cases (leb v.size i)) [
    | inl t ↦ rw (vec_get, r.at_front, t) (sym (get-none xs i (ground (arith, r.same_size))))
    | inr t ↦ rw (vec_get, r.at_front, t) (place-block xs i r.rest (ground (arith, r.same_size)))
  ]

  set-out : (xs : List A) (i : ℕ) (x : A) → length xs ≤ i → set xs i x ≡ xs
  set-out [] i x h = refl
  set-out (y ∷ xs) zero x h = absurd (omega (arith, h))
  set-out (y ∷ xs) (suc i) x h = ap (λ l. y ∷ l) (set-out xs i x (omega (arith, h)))

  -- On a vector that represents a list, vec_set writes a place of the list and gives the item that
  -- was there, or changes nothing and gives NULL out of bounds.
  pub vec_set-Represents :
      (v : Vec A) (xs : List A) (i : ℕ) (x : A)
      → Represents v xs
      → Represents (vec_set v i x).0 (set xs i x) × ((vec_set v i x).1 ≡ get_elem? xs i)
  unfolding vec_set
  vec_set-Represents v xs i x r = elim (Bool-cases (leb v.size i)) [
    | inl t ↦
        let out : length xs ≤ i = ground (arith, r.same_size) in
        rw (vec_set, r.at_front, t)
          (subst (Represents v) (sym (set-out xs i x out)) r, sym (get-none xs i out))
    | inr t ↦
        let inside : i < length xs = ground (arith, r.same_size) in
        rw (vec_set, r.at_front, t)
          (
            record {
              rest = r.rest;
              at_front = ap some (set-block xs i x r.rest inside);
              same_size = r.same_size ∙ sym (length-set xs i x);
              whole_block = omega (arith, r.whole_block, length-set xs i x);
              not_empty = r.not_empty;
              in_memory = r.in_memory;
            },
            place-block xs i r.rest inside,
          )
  ]
