-- ===== src/Samples/Vectors.antt =====
-- The theorems on the vector, on a full vector of two numbers and an allocator that gives up to 1000
-- bytes.
use task_spooler_plus.Base.{
  ℕ, ◌≤◌, ◌≡◌, refl, ◌⊎◌, [], ◌∷◌, ◌++◌, none, some, Bool, true, false, arith, leb, get_elem?,
  remove_at,
}
use task_spooler_plus.Vec.{Vec, vec_push, vec_insert, vec_remove}
use task_spooler_plus.Vec.Blocks.{insert_at}
use task_spooler_plus.Vec.Growth.{IsAllocator, Represents}
use task_spooler_plus.Vec.Refines.{
  vec_push-Represents, vec_insert-Represents, vec_remove-Represents,
}

abbrev small : ℕ → Bool
small n = leb n 1000

small-IsAllocator : IsAllocator small
small-IsAllocator n h = ground arith

abbrev pair : Vec ℕ
pair = record { items = some (some 10 ∷ some 20 ∷ []); size = 2; capacity = 2 }

pair-Represents : Represents pair (10 ∷ 20 ∷ [])
pair-Represents = record {
  rest = [];
  at_front = refl;
  same_size = refl;
  whole_block = refl;
  not_empty = omega arith;
  in_memory = omega arith;
}

abbrev garbage : Vec ℕ
garbage = record { items = none; size = 5; capacity = 6 }

vec_push-Represents_example :
    ((vec_push small pair 30 ≡ (pair, false)) × (2 ≤ 2))
    ⊎ ((v' : Vec ℕ) × (vec_push small pair 30 ≡ (v', true))
        × Represents v' ((10 ∷ 20 ∷ []) ++ 30 ∷ []))
vec_push-Represents_example =
    vec_push-Represents small pair (10 ∷ 20 ∷ []) 30 small-IsAllocator pair-Represents

vec_insert-Represents_example :
    ((vec_insert small pair 1 30 ≡ (pair, false)) × (2 ≤ 2))
    ⊎ ((v' : Vec ℕ) × (vec_insert small pair 1 30 ≡ (v', true))
        × Represents v' (insert_at (10 ∷ 20 ∷ []) 1 30))
vec_insert-Represents_example =
    vec_insert-Represents small pair (10 ∷ 20 ∷ []) 1 30 small-IsAllocator pair-Represents
      (omega arith)

vec_remove-Represents_example :
    Represents (vec_remove pair 0).0 (remove_at (10 ∷ 20 ∷ []) 0)
    × ((vec_remove pair 0).1 ≡ get_elem? (10 ∷ 20 ∷ []) 0)
vec_remove-Represents_example = vec_remove-Represents pair (10 ∷ 20 ∷ []) 0 pair-Represents
