-- ===== src/Vec.antt =====
-- vec.c: the vector of pointers. A block of `n` bytes is a list of `n / 8` places, a place that was not
-- written yet is `none`. `grants` says whether the allocator gives a block of so many bytes. The argument
-- `v` is not NULL: no caller passes NULL. vec_create and vec_free wrap malloc and free.
pub mod Blocks
pub mod Growth
pub mod Refines
use task_spooler_plus.Base.{
  ℕ, zero, suc, ◌+◌, ◌-◌, ◌*◌, ◌/◌, ◌%◌, ◌^◌, List, [], ◌∷◌, ◌++◌, Option, none, some, Bool, true,
  false, ◌||◌, not, if◌then◌else◌, ltb, leb, ◌==◌, get_elem?, set,
}

-- vec_t. `items` is its `data`.
pub record Vec {ℓ} (A : Type ℓ) : Type ℓ where
  pub items : Option (List (Option A))
  pub size : ℕ
  pub capacity : ℕ

abbrev pub size_max : ℕ
size_max = 18446744073709551615

module _ {ℓ} {A : Type ℓ} where
  abbrev pub take : ℕ → List A → List A
  take zero xs = []
  take (suc n) [] = []
  take (suc n) (x ∷ xs) = x ∷ take n xs

  abbrev pub drop : ℕ → List A → List A
  drop zero xs = xs
  drop (suc n) [] = []
  drop (suc n) (x ∷ xs) = drop n xs

  -- The C library's memmove of `n` places from `src` to `dst` in one block.
  unfoldable pub memmove : List A → ℕ → ℕ → ℕ → List A
  memmove b dst src n = take dst b ++ (take n (drop src b) ++ drop n (drop dst b))

module _ {ℓ} {A : Type ℓ} where
  -- A block of `n` places with what fits of an old block.
  abbrev pub resized : ℕ → List (Option A) → List (Option A)
  resized zero b = []
  resized (suc n) [] = none ∷ resized n []
  resized (suc n) (x ∷ b) = x ∷ resized n b

  -- A read of a place.
  abbrev pub place : List (Option A) → ℕ → Option A
  place b i = elim (get_elem? b i) [ none ↦ none | some x ↦ x ]

  unfoldable pub vec_init : (ℕ → Bool) → Vec A → Vec A × Bool
  vec_init grants v =
      if grants (8 * 8)
      then (record { items = some (resized 8 []); size = 0; capacity = 8 }, true)
      else (record v { items = none }, false)

  unfoldable pub vec_reserve : (ℕ → Bool) → Vec A → ℕ → Vec A × Bool
  vec_reserve grants v cap = elim v.items [
    | none ↦ (v, false)
    | some b ↦
        if leb cap v.capacity
        then (v, true)
        else let bytes = (cap * 8) % (size_max + 1) in
          if grants bytes
          then (record v { items = some (resized (bytes / 8) b); capacity = cap }, true)
          else (v, false)
  ]

  -- The room for one more item, as `vec_push` and `vec_insert` make it.
  unfoldable pub make_room : (ℕ → Bool) → Vec A → Vec A × Bool
  make_room grants v =
      if ltb v.size v.capacity
      then (v, true)
      else if ltb (size_max / 2) v.capacity
      then (v, false)
      else vec_reserve grants v (v.capacity * 2)

  abbrev push_into : Vec A × Bool → A → Vec A × Bool
  push_into (v, false) x = (v, false)
  push_into (v, true) x = elim v.items [
    | none ↦ (v, false)
    | some b ↦ (record v { items = some (set b v.size (some x)); size = suc v.size }, true)
  ]

  unfoldable pub vec_push : (ℕ → Bool) → Vec A → A → Vec A × Bool
  vec_push grants v x = elim v.items [
    | none ↦ (v, false)
    | some b ↦ push_into (make_room grants v) x
  ]

  unfoldable pub vec_pop : Vec A → Vec A × Option A
  vec_pop v = elim v.items [
    | none ↦ (v, none)
    | some b ↦
        if v.size == 0 then (v, none) else (record v { size = v.size - 1 }, place b (v.size - 1))
  ]

  unfoldable pub vec_get : Vec A → ℕ → Option A
  vec_get v i = elim v.items [ none ↦ none | some b ↦ if leb v.size i then none else place b i ]

  -- The old item is returned.
  unfoldable pub vec_set : Vec A → ℕ → A → Vec A × Option A
  vec_set v i x = elim v.items [
    | none ↦ (v, none)
    | some b ↦
        if leb v.size i
        then (v, none)
        else (record v { items = some (set b i (some x)) }, place b i)
  ]

  abbrev insert_into : Vec A × Bool → ℕ → A → Vec A × Bool
  insert_into (v, false) i x = (v, false)
  insert_into (v, true) i x = elim v.items [
    | none ↦ (v, false)
    | some b ↦ (
      record v {
        items = some (set (memmove b (suc i) i (v.size - i)) i (some x));
        size = suc v.size;
      },
      true,
    )
  ]

  unfoldable pub vec_insert : (ℕ → Bool) → Vec A → ℕ → A → Vec A × Bool
  vec_insert grants v i x = elim v.items [
    | none ↦ (v, false)
    | some b ↦ if ltb v.size i then (v, false) else insert_into (make_room grants v) i x
  ]

  unfoldable pub vec_remove : Vec A → ℕ → Vec A × Option A
  vec_remove v i = elim v.items [
    | none ↦ (v, none)
    | some b ↦ if leb v.size i then (v, none) else (
      record v { items = some (memmove b i (suc i) (v.size - i - 1)); size = v.size - 1 },
      place b i,
    )
  ]

  unfoldable pub vec_size : Vec A → ℕ
  vec_size v = v.size

  unfoldable pub vec_clear : Vec A → Vec A
  vec_clear v = elim v.items [ none ↦ v | some b ↦ record v { size = 0 } ]

  unfoldable pub vec_destroy : Vec A → Vec A
  vec_destroy v = record { items = none; size = 0; capacity = 0 }
