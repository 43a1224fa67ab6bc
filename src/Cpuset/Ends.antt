-- ===== src/Cpuset/Ends.antt =====
-- cpu_bind.c cpu_bind_parse_cpuset: the texts on which its loop ends, and those on which it does not.
use task_spooler_plus.Base.{
  ℕ, zero, suc, ◌+◌, ◌-◌, ◌*◌, ◌≤◌, ◌<◌, List, [], ◌∷◌, none, some, Bool, true, false, ◌||◌, leb,
  ltb, ◌==◌, ◌≡◌, ◌≢◌, refl, ◌∙◌, sym, subst, All, length, Bool-cases, Option-cases, inl, inr,
  arith,
}
use task_spooler_plus.Cpuset.{
  is_digit, is_separator, skip_separators, read_number, add_range, read_rest, parse_loop,
  cpu_bind_parse_cpuset,
}
use task_spooler_plus.Cpuset.RoundTrip.{parse_loop-step}

-- The bytes of a cpuset.
abbrev pub is_cpuset_byte : ℕ → Bool
is_cpuset_byte c = is_digit c || is_separator c || (c == b'-')

abbrev pub IsText : List ℕ → Type 0
IsText s = All (λ c. is_cpuset_byte c ≡ true) s

read_number-digit :
    (c : ℕ) (s : List ℕ) (n : ℕ)
    → is_digit c ≡ true
    → read_number (c ∷ s) n ≡ read_number s (n * 10 + (c - b'0'))
unfolding read_number
read_number-digit c s n e = rw (e, read_number)

read_number-other :
    (c : ℕ) (s : List ℕ) (n : ℕ) → is_digit c ≡ false → read_number (c ∷ s) n ≡ (n, c ∷ s)
unfolding read_number
read_number-other c s n e = rw (e, read_number)

some-ne-none {ℓ} : {A : Type ℓ} {a : A} → some a ≢ none
some-ne-none h = cc

-- A text no longer than another.
abbrev Within : List ℕ → List ℕ → Type 0
Within s t = IsText s × (length s ≤ length t)

Within-cons : (c : ℕ) (s t : List ℕ) → Within s t → Within s (c ∷ t)
Within-cons c s t h = (h.0, omega (arith, h.1))

read_number-Within : (s : List ℕ) (n : ℕ) → IsText s → Within (read_number s n).1 s
unfolding read_number
read_number-Within [] n h = (tt, omega arith)
read_number-Within (c ∷ s) n h = elim (Bool-cases (is_digit c)) [
  | inl e ↦
      subst (λ (r : ℕ × List ℕ). Within r.1 (c ∷ s)) (sym (read_number-digit c s n e))
        (Within-cons c _ s (read_number-Within s _ h.1))
  | inr e ↦
      subst (λ (r : ℕ × List ℕ). Within r.1 (c ∷ s)) (sym (read_number-other c s n e))
        (h, omega arith)
]

skip_separators-Within : (s : List ℕ) → IsText s → Within (skip_separators s) s
unfolding skip_separators
skip_separators-Within [] h = (tt, omega arith)
skip_separators-Within (c ∷ s) h = elim (Bool-cases (is_separator c)) [
  | inl e ↦ rw e (Within-cons c _ s (skip_separators-Within s h.1))
  | inr e ↦ rw e (h, omega arith)
]

skip_separators-head :
    (s : List ℕ) (c : ℕ) (t : List ℕ) → skip_separators s ≡ c ∷ t → is_separator c ≡ false
unfolding skip_separators
skip_separators-head [] c t h = cc
skip_separators-head (x ∷ s) c t h = elim (Bool-cases (is_separator x)) [
  | inl e ↦ skip_separators-head s c t (rw e at h)
  | inr e ↦ let q : x ≡ c = cc (rw e at h) in rw (← q) e
]

skip_separators-stop :
    (c : ℕ) (s : List ℕ) → is_separator c ≡ false → skip_separators (c ∷ s) ≡ c ∷ s
unfolding skip_separators
skip_separators-stop c s e = rw e

module _ (max_os_cpu max_cpus : ℕ) where
  -- A range takes its dash.
  read_rest-dash :
      (start c : ℕ) (s cpus cpus' rest : List ℕ)
      → (c == b'-') ≡ true
      → IsText s
      → read_rest max_os_cpu max_cpus start (c ∷ s) cpus ≡ some (cpus', rest)
      → Within rest s
  unfolding read_rest
  read_rest-dash start c s cpus cpus' rest d h e =
      let r = read_number s 0 in
      elim (Bool-cases (leb max_os_cpu r.0 || ltb r.0 start)) [
        | inl q ↦ absurd (some-ne-none (sym (rw (d, q) at e)))
        | inr q ↦ let z : rest ≡ r.1 = cc (rw (d, q) at e) in rw z (read_number-Within s 0 h)
      ]

  read_rest-other :
      (start c : ℕ) (s cpus cpus' rest : List ℕ)
      → (c == b'-') ≡ false
      → read_rest max_os_cpu max_cpus start (c ∷ s) cpus ≡ some (cpus', rest)
      → rest ≡ c ∷ s
  unfolding read_rest
  read_rest-other start c s cpus cpus' rest d e = cc (rw d at e)

  read_rest-Within :
      (start : ℕ) (s cpus cpus' rest : List ℕ)
      → IsText s
      → read_rest max_os_cpu max_cpus start s cpus ≡ some (cpus', rest)
      → Within rest s
  unfolding read_rest
  read_rest-Within start [] cpus cpus' rest h e = let q : rest ≡ [] = cc in rw q (tt, omega arith)
  read_rest-Within start (c ∷ s) cpus cpus' rest h e = elim (Bool-cases (c == b'-')) [
    | inl d ↦ Within-cons c rest s (read_rest-dash start c s cpus cpus' rest d h.1 e)
    | inr d ↦
        let q = read_rest-other start c s cpus cpus' rest d e in
        subst (λ r. Within r (c ∷ s)) (sym q) (h, omega arith)
  ]

  read_rest-single :
      (start c : ℕ) (s cpus : List ℕ)
      → (c == b'-') ≡ false
      → read_rest max_os_cpu max_cpus start (c ∷ s) cpus
        ≡ some (add_range max_cpus 1 start cpus, c ∷ s)
  unfolding read_rest
  read_rest-single start c s cpus d = rw d

  -- A round takes at least one byte.
  round-Within :
      (c : ℕ) (t cpus cpus' rest : List ℕ)
      → is_separator c ≡ false
      → IsText (c ∷ t)
      → read_rest max_os_cpu max_cpus (read_number (c ∷ t) 0).0 (read_number (c ∷ t) 0).1 cpus
        ≡ some (cpus', rest)
      → Within rest t
  round-Within c t cpus cpus' rest n h e = elim (Bool-cases (is_digit c)) [
    | inl d ↦
        let q = read_number-digit c t 0 d in
        let w = read_number-Within t (0 * 10 + (c - b'0')) h.1 in
        let u = read_rest-Within _ _ cpus cpus' rest (w.0) (rw q at e) in
        (u.0, omega (arith, u.1, w.1))
    | inr d ↦
        let q = read_number-other c t 0 d in
        read_rest-dash 0 c t cpus cpus' rest (ground (arith, h.0, n, d)) h.1 (rw q at e)
  ]

  parse_loop-end :
      (fuel : ℕ) (s cpus : List ℕ)
      → skip_separators s ≡ []
      → parse_loop max_os_cpu max_cpus (suc fuel) s cpus ≡ some (some cpus)
  unfolding parse_loop
  parse_loop-end fuel s cpus e = rw (e, parse_loop)

  parse_loop-outside :
      (fuel : ℕ) (s : List ℕ) (c : ℕ) (t cpus : List ℕ)
      → skip_separators s ≡ c ∷ t
      → leb max_os_cpu (read_number (c ∷ t) 0).0 ≡ true
      → parse_loop max_os_cpu max_cpus (suc fuel) s cpus ≡ some none
  unfolding parse_loop
  parse_loop-outside fuel s c t cpus e q = rw (e, parse_loop) (rw q)

  parse_loop-refused :
      (fuel : ℕ) (s : List ℕ) (c : ℕ) (t cpus : List ℕ)
      → skip_separators s ≡ c ∷ t
      → leb max_os_cpu (read_number (c ∷ t) 0).0 ≡ false
      → read_rest max_os_cpu max_cpus (read_number (c ∷ t) 0).0 (read_number (c ∷ t) 0).1 cpus
        ≡ none
      → parse_loop max_os_cpu max_cpus (suc fuel) s cpus ≡ some none
  unfolding parse_loop
  parse_loop-refused fuel s c t cpus e q r = rw (e, parse_loop) (rw q (rw r))

  parse_loop-round :
      (fuel : ℕ) (s u cpus : List ℕ)
      → skip_separators s ≡ u
      → length s < suc fuel
      → IsText s
      → ((rest cpus' : List ℕ)
          → length rest < fuel
          → IsText rest
          → parse_loop max_os_cpu max_cpus fuel rest cpus' ≢ none)
      → parse_loop max_os_cpu max_cpus (suc fuel) s cpus ≢ none
  parse_loop-round fuel s [] cpus e f h ih z = some-ne-none (sym (parse_loop-end fuel s cpus e) ∙ z)
  parse_loop-round fuel s (c ∷ t) cpus e f h ih z =
      let w = subst (λ u. Within u s) e (skip_separators-Within s h) in
      elim (Bool-cases (leb max_os_cpu (read_number (c ∷ t) 0).0)) [
        | inl o ↦ some-ne-none (sym (parse_loop-outside fuel s c t cpus e o) ∙ z)
        | inr o ↦
            elim (Option-cases (
              read_rest max_os_cpu max_cpus (read_number (c ∷ t) 0).0 (read_number (c ∷ t) 0).1
                cpus)) [
                  | inl r ↦ some-ne-none (sym (parse_loop-refused fuel s c t cpus e o r) ∙ z)
                  | inr (p, r) ↦
                      let v =
                        round-Within c t cpus p.0 p.1 (skip_separators-head s c t e) (w.0) r in
                      ih (p.1) (p.0) (omega (arith, v.1, w.1, f)) (v.0) (
                        sym (
                          parse_loop-step max_os_cpu max_cpus fuel s c t cpus _ _ (p.0) (p.1) e refl
                            o r)
                        ∙ z)
                ]
      ]

  parse_loop-ends :
      (fuel : ℕ) (s cpus : List ℕ)
      → length s < fuel
      → IsText s
      → parse_loop max_os_cpu max_cpus fuel s cpus ≢ none
  parse_loop-ends zero s cpus f h = elim f [ ]
  parse_loop-ends (suc fuel) s cpus f h =
      parse_loop-round fuel s _ cpus refl f h
        (λ rest cpus' g k. parse_loop-ends fuel rest cpus' g k)

  -- On any text of digits, dashes, commas and blanks the loop of cpu_bind_parse_cpuset ends within
  -- as many rounds as the text has bytes, and one.
  pub cpu_bind_parse_cpuset-ends :
      (s : List ℕ) → IsText s → cpu_bind_parse_cpuset max_os_cpu s max_cpus ≢ none
  unfolding cpu_bind_parse_cpuset
  cpu_bind_parse_cpuset-ends [] h = cc
  cpu_bind_parse_cpuset-ends (c ∷ s) h =
      parse_loop-ends (suc (length (c ∷ s))) (c ∷ s) [] (omega arith) h

  -- At a byte that is no digit, dash, comma or blank the loop of cpu_bind_parse_cpuset never ends,
  -- for any MAX_OS_CPU but 0.
  pub parse_loop-stuck :
      (fuel : ℕ) (c : ℕ) (s cpus : List ℕ)
      → is_cpuset_byte c ≡ false
      → 0 < max_os_cpu
      → parse_loop max_os_cpu max_cpus fuel (c ∷ s) cpus ≡ none
  unfolding parse_loop
  parse_loop-stuck zero c s cpus b p = refl
  parse_loop-stuck (suc fuel) c s cpus b p =
      parse_loop-step max_os_cpu max_cpus fuel (c ∷ s) c s cpus 0 (c ∷ s) _ (c ∷ s)
        (skip_separators-stop c s (ground arith)) (read_number-other c s 0 (ground arith))
        (ground arith) (read_rest-single 0 c s cpus (ground arith))
      ∙ parse_loop-stuck fuel c s _ b p
