-- ===== src/Queue/WallTime.antt =====
-- jobs.c s_add_wtime: the bounds of a changed wall time.
use task_spooler_plus.Base.{
  ℤ, pos, ◌+ℤ◌, ◌-ℤ◌, ◌≤ℤ◌, ◌<ℤ◌, ◌≡◌, refl, sym, ◌∙◌, some, Bool-cases, inl, inr, arith, int_laws,
  i64abs, i64abs-neg, neg, ltb_ℤ, leb_ℤ, true, false, ◌&&◌, neg_parts,
}
use task_spooler_plus.Queue.{int64_max, new_wall_time}

abs_of_pos : (w : ℤ) → pos 0 <ℤ w → i64abs w ≡ w
unfolding i64abs
abs_of_pos w h = ground arith

sign_neg : (a : ℤ) → pos 0 <ℤ a → ltb_ℤ (neg a) (pos 0) ≡ true
sign_neg a h = ground (arith, neg_parts a)

sign_pos : (a : ℤ) → pos 0 <ℤ a → ltb_ℤ a (pos 0) ≡ false
sign_pos a h = ground arith

within :
    (old add : ℤ)
    → i64abs old ≤ℤ int64_max
    → (ltb_ℤ (pos 0) add && ltb_ℤ (int64_max -ℤ add) (i64abs old)) ≡ false
    → i64abs old +ℤ add ≤ℤ int64_max
within old add l t = elim (Bool-cases (ltb_ℤ (pos 0) add)) [
  | inl a ↦
      let b : ltb_ℤ (int64_max -ℤ add) (i64abs old) ≡ false = ground arith in
      let c : i64abs old ≤ℤ int64_max -ℤ add = ground arith in omega (int_laws, c)
  | inr a ↦ let c : add ≤ℤ pos 0 = ground arith in omega (int_laws, l, c)
]

-- A wall time that s_add_wtime changes, from one in the range of int64_t, changes its magnitude by
-- just what is added, stays in the range, does not become zero, and keeps its sign.
pub new_wall_time-bounds :
    (old add w : ℤ)
    → i64abs old ≤ℤ int64_max
    → new_wall_time old add ≡ some w
    → (i64abs w ≡ i64abs old +ℤ add)
      × (pos 0 <ℤ i64abs w)
      × (i64abs w ≤ℤ int64_max)
      × (ltb_ℤ w (pos 0) ≡ ltb_ℤ old (pos 0))
unfolding new_wall_time
new_wall_time-bounds old add w l h =
    elim (Bool-cases (ltb_ℤ (pos 0) add && ltb_ℤ (int64_max -ℤ add) (i64abs old))) [
      | inl t ↦ absurd (ground arith)
      | inr t ↦ elim (Bool-cases (leb_ℤ (i64abs old +ℤ add) (pos 0))) [
        | inl u ↦ absurd (ground arith)
        | inr u ↦
            let p : pos 0 <ℤ i64abs old +ℤ add = ground arith in
            let k = within old add l t in
            elim (Bool-cases (ltb_ℤ old (pos 0))) [
              | inl v ↦
                  let e : w ≡ neg (i64abs old +ℤ add) = ground arith in
                  rw (e, i64abs-neg, abs_of_pos (i64abs old +ℤ add) p)
                    (refl, p, k, sign_neg (i64abs old +ℤ add) p ∙ sym v)
              | inr v ↦
                  let e : w ≡ i64abs old +ℤ add = ground arith in
                  rw (e, abs_of_pos (i64abs old +ℤ add) p)
                    (refl, p, k, sign_pos (i64abs old +ℤ add) p ∙ sym v)
            ]
      ]
    ]
