-- ===== src/Vec/Growth.antt =====
-- vec.c: what it is for a vector to represent a list, and the room that vec_reserve makes for an item.
use task_spooler_plus.Base.{
  ℕ, ◌+◌, ◌*◌, ◌/◌, ◌%◌, ◌≤◌, ◌<◌, ◌≡◌, refl, ap, ◌∙◌, ◌⊎◌, inl, inr, List, [], ◌∷◌, Option, none,
  some, Bool, true, false, Bool-cases, length, arith, ltb, leb, if◌then◌else◌,
}
use task_spooler_plus.Vec.{Vec, resized, size_max, vec_reserve, make_room}
use task_spooler_plus.Vec.Blocks.{block, resized-block}

-- malloc and realloc give no block of more than PTRDIFF_MAX bytes.
abbrev pub IsAllocator : (ℕ → Bool) → Type 0
IsAllocator grants = (n : ℕ) → grants n ≡ true → n ≤ 9223372036854775807

-- Growing to twice the capacity: the number of bytes does not wrap around.
pub doubled : (c : ℕ) → c * 8 ≤ 9223372036854775807 → (c * 2 * 8) % (size_max + 1) ≡ c * 16
doubled c h = omega arith

pub eighth : (c : ℕ) → c * 16 / 8 ≡ c * 2
eighth c = omega arith

module _ {ℓ} {A : Type ℓ} where
  pub split_rest : (l : List A) → 1 ≤ length l → (o : A) × (l' : List A) × (l ≡ o ∷ l')
  split_rest [] h = absurd (omega (arith, h))
  split_rest (o ∷ l') h = (o, l', refl)

module _ {ℓ} {A : Type ℓ} where
  -- The vector has the items of the list, in order, and room that the block has.
  pub record Represents (v : Vec A) (xs : List A) : Type ℓ where
    pub rest : List (Option A)
    pub at_front : v.items ≡ some (block xs rest)
    pub same_size : v.size ≡ length xs
    pub whole_block : length xs + length rest ≡ v.capacity
    pub not_empty : 1 ≤ v.capacity
    pub in_memory : v.capacity * 8 ≤ 9223372036854775807

  pub grow : Vec A → List (Option A) → Vec A
  grow v b = record v { items = some (resized (v.capacity * 2) b); capacity = v.capacity * 2 }

  -- `vec_reserve` on a block, with the number of bytes that doubling asks for.
  pub reserve_block :
      (grants : ℕ → Bool) (v : Vec A) (b : List (Option A))
      → v.items ≡ some b
      → leb (v.capacity * 2) v.capacity ≡ false
      → (v.capacity * 2 * 8) % (size_max + 1) ≡ v.capacity * 16
      → vec_reserve grants v (v.capacity * 2)
        ≡ (if grants (v.capacity * 16) then (grow v b, true) else (v, false))
  unfolding vec_reserve grow
  reserve_block grants v b i c d =
      ap
        (λ (o : Option (List (Option A))). elim o as (λ o. Vec A × Bool) [
          | none ↦ (v, false)
          | some b ↦
              if leb (v.capacity * 2) v.capacity
              then (v, true)
              else let bytes = (v.capacity * 2 * 8) % (size_max + 1) in
                if grants bytes
                then (
                  record v { items = some (resized (bytes / 8) b); capacity = v.capacity * 2 },
                  true,
                )
                else (v, false)
        ])
        i
      ∙ rw (c, d, eighth v.capacity) refl

  pub reserve-grow :
      (grants : ℕ → Bool) (v : Vec A) (b : List (Option A))
      → v.items ≡ some b
      → 1 ≤ v.capacity
      → v.capacity * 8 ≤ 9223372036854775807
      → (vec_reserve grants v (v.capacity * 2) ≡ (v, false))
        ⊎ ((grants (v.capacity * 16) ≡ true)
            × (vec_reserve grants v (v.capacity * 2) ≡ (grow v b, true)))
  reserve-grow grants v b i p m =
      let e = reserve_block grants v b i (ground arith) (doubled v.capacity m) in
      elim (Bool-cases (grants (v.capacity * 16))) [
        | inl t ↦ inr (t, e ∙ rw t refl)
        | inr t ↦ inl (e ∙ rw t refl)
      ]

  pub grow-room :
      (v : Vec A) (b : List (Option A))
      → v.size < v.capacity * 2
      → (grow v b).size < (grow v b).capacity
  unfolding grow
  grow-room v b l = l

  pub grow-Represents :
      (v : Vec A) (xs : List A) (r : Represents v xs)
      → v.capacity * 16 ≤ 9223372036854775807
      → Represents (grow v (block xs r.rest)) xs × (v.size < v.capacity * 2)
  unfolding grow
  grow-Represents v xs r g =
      let (l, e, k) = resized-block xs r.rest (v.capacity * 2) (omega (arith, r.whole_block)) in
      (
        record {
          rest = l;
          at_front = ap some e;
          same_size = r.same_size;
          whole_block = k;
          not_empty = omega (arith, r.not_empty);
          in_memory = omega (arith, g);
        },
        omega (arith, r.whole_block, r.same_size, r.not_empty),
      )

  -- The room for an item: it fails only on a full vector, which stays as it was.
  abbrev pub Roomy : (ℕ → Bool) → Vec A → List A → Type ℓ
  Roomy grants v xs =
      ((make_room grants v ≡ (v, false)) × (v.capacity ≤ v.size))
      ⊎ ((v' : Vec A) × (make_room grants v ≡ (v', true))
          × Represents v' xs
          × (v'.size < v'.capacity))

  pub make_room_lem :
      (grants : ℕ → Bool) (v : Vec A) (xs : List A)
      → IsAllocator grants
      → Represents v xs
      → Roomy grants v xs
  unfolding make_room
  make_room_lem grants v xs k r = elim (Bool-cases (ltb v.size v.capacity)) [
    | inl t ↦ inr (v, rw (make_room, t) refl, r, ground arith)
    | inr t ↦
        let full : v.capacity ≤ v.size = ground arith in
        elim (Bool-cases (ltb (size_max / 2) v.capacity)) [
          | inl u ↦ inl (rw (make_room, t, u) refl, full)
          | inr u ↦
              elim (reserve-grow grants v (block xs r.rest) r.at_front r.not_empty r.in_memory) [
                | inl e ↦ inl (rw (make_room, t, u) e, full)
                | inr (g, e) ↦
                    let (r', l) = grow-Represents v xs r (k _ g) in
                    inr (grow v (block xs r.rest), rw (make_room, t, u) e, r', grow-room v _ l)
              ]
        ]
  ]
