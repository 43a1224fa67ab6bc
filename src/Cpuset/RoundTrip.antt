-- ===== src/Cpuset/RoundTrip.antt =====
-- cpu_bind.c: cpu_bind_parse_cpuset reads back what cpu_bind_format_cpus writes.
use task_spooler_plus.Base.{
  ℕ, zero, suc, ◌+◌, ◌-◌, ◌*◌, ◌≤◌, ◌<◌, List, [], ◌∷◌, ◌++◌, some, false, leb, ◌==◌, ◌≡◌, refl,
  ◌∙◌, ap, sym, All, length, length-append, append_assoc, append-nil, arith,
}
use task_spooler_plus.Cpuset.{
  decimal, format_loop, cpu_bind_format_cpus, skip_separators, read_number, add_range, read_rest,
  parse_loop, cpu_bind_parse_cpuset,
}
use task_spooler_plus.Cpuset.Decimal.{
  StopsHere, StartsDigit, read_number-decimal, decimal-StartsDigit, ten_to, length-decimal,
}

-- The numbers, each behind a comma.
unfoldable pub pieces : List ℕ → List ℕ
pieces [] = []
pieces (c ∷ cs) = b',' ∷ (decimal c ++ pieces cs)

pieces-StopsHere : (cs : List ℕ) → StopsHere (pieces cs)
unfolding pieces
pieces-StopsHere [] = tt
pieces-StopsHere (c ∷ cs) = refl

length-StartsDigit : (s : List ℕ) → StartsDigit s → 0 < length s
length-StartsDigit [] h = absurd h
length-StartsDigit (c ∷ s) h = omega arith

length-decimal_pos : (c : ℕ) → 0 < length (decimal c)
length-decimal_pos c = length-StartsDigit (decimal c) (decimal-StartsDigit c)

-- The buffer has room for `k` numbers more: nothing is cut off.
format_loop-pieces :
    (size : ℕ) (out cs : List ℕ)
    → All (λ c. c < ten_to 11) cs
    → 0 < length out
    → length out + 12 * length cs + 1 < size
    → format_loop size out cs ≡ out ++ pieces cs
unfolding format_loop pieces
format_loop-pieces size out [] a p h = sym (append-nil out)
format_loop-pieces size out (c ∷ cs) a p h =
    let l = length-decimal 10 c a.0 in
    let e1 : (length out == 0) ≡ false = ground arith in
    let e2 : leb (size - 1) (length out) ≡ false = ground arith in
    let e3 : leb (size - 1) (length out + length (b',' ∷ decimal c)) ≡ false = ground (arith, l) in
    rw e1 (
      rw e2 (
        rw e3 (
          format_loop-pieces size (out ++ b',' ∷ decimal c) cs a.1
            (omega (arith, length-append out (b',' ∷ decimal c), p))
            (omega (arith, length-append out (b',' ∷ decimal c), l, h))
          ∙ append_assoc out (b',' ∷ decimal c) (pieces cs))))

cpu_bind_format_cpus_lem :
    (c : ℕ) (cs : List ℕ)
    → All (λ x. x < ten_to 11) (c ∷ cs)
    → cpu_bind_format_cpus (c ∷ cs) ≡ decimal c ++ pieces cs
unfolding cpu_bind_format_cpus format_loop
cpu_bind_format_cpus_lem c cs a =
    let l = length-decimal 10 c a.0 in
    let e2 : leb (length (c ∷ cs) * 12 + 1 - 1) 0 ≡ false = ground arith in
    let e3 : leb (length (c ∷ cs) * 12 + 1 - 1) (0 + length (decimal c)) ≡ false =
      ground (arith, l) in
    rw e2 (
      rw e3 (
        format_loop-pieces (length (c ∷ cs) * 12 + 1) (decimal c) cs a.1 (length-decimal_pos c)
          (omega (arith, l))))

-- A text that begins with a digit begins a number.
skip_separators-digit : (s : List ℕ) → StartsDigit s → skip_separators s ≡ s
unfolding skip_separators
skip_separators-digit [] h = refl
skip_separators-digit (c ∷ s) h = ground arith

starts : (s t : List ℕ) → StartsDigit s → StartsDigit (s ++ t)
starts [] t h = absurd h
starts (c ∷ s) t h = h

-- One round of the loop.
pub parse_loop-step :
    (max_os_cpu max_cpus fuel : ℕ) (s : List ℕ) (c : ℕ) (t cpus : List ℕ) (start : ℕ)
    (r cpus' rest : List ℕ)
    → skip_separators s ≡ c ∷ t
    → read_number (c ∷ t) 0 ≡ (start, r)
    → leb max_os_cpu start ≡ false
    → read_rest max_os_cpu max_cpus start r cpus ≡ some (cpus', rest)
    → parse_loop max_os_cpu max_cpus (suc fuel) s cpus
      ≡ parse_loop max_os_cpu max_cpus fuel rest cpus'
unfolding parse_loop
parse_loop-step m k fuel s c t cpus start r cpus' rest e1 e2 e3 e4 =
    rw (e1, parse_loop) (rw e2 (rw e3 (rw e2 (rw e4))))

module _ (max_os_cpu max_cpus : ℕ) where
  read_rest-single :
      (c : ℕ) (s cpus : List ℕ)
      → length cpus < max_cpus
      → read_rest max_os_cpu max_cpus c (pieces s) cpus ≡ some (cpus ++ c ∷ [], pieces s)
  unfolding read_rest add_range pieces
  read_rest-single c [] cpus room = ground arith
  read_rest-single c (x ∷ s) cpus room = ground arith

  parse_loop-number :
      (fuel c : ℕ) (s : List ℕ) (t cpus : List ℕ)
      → skip_separators t ≡ decimal c ++ pieces s
      → c < max_os_cpu
      → length cpus < max_cpus
      → parse_loop max_os_cpu max_cpus (suc fuel) t cpus
        ≡ parse_loop max_os_cpu max_cpus fuel (pieces s) (cpus ++ c ∷ [])
  parse_loop-number fuel c s t cpus e lt room = number-from (decimal c ++ pieces s) refl
    where
      number-from :
          (u : List ℕ)
          → decimal c ++ pieces s ≡ u
          → parse_loop max_os_cpu max_cpus (suc fuel) t cpus
            ≡ parse_loop max_os_cpu max_cpus fuel (pieces s) (cpus ++ c ∷ [])
      number-from [] q =
          absurd
            (omega (arith, ap length q, length-append (decimal c) (pieces s), length-decimal_pos c))
      number-from (d ∷ u) q =
          parse_loop-step max_os_cpu max_cpus fuel t d u cpus c (pieces s) (cpus ++ c ∷ [])
            (pieces s) (e ∙ q)
            (ap (λ x. read_number x 0) (sym q)
              ∙ read_number-decimal c (pieces s) (pieces-StopsHere s))
            (ground arith) (read_rest-single c s cpus room)

  parse_loop-pieces :
      (fuel : ℕ) (cs cpus : List ℕ)
      → length cs < fuel
      → All (λ c. c < max_os_cpu) cs
      → length cpus + length cs ≤ max_cpus
      → parse_loop max_os_cpu max_cpus fuel (pieces cs) cpus ≡ some (some (cpus ++ cs))
  unfolding parse_loop pieces skip_separators
  parse_loop-pieces zero cs cpus f a room = absurd (omega (arith, f))
  parse_loop-pieces (suc fuel) [] cpus f a room = ap (λ x. some (some x)) (sym (append-nil cpus))
  parse_loop-pieces (suc fuel) (c ∷ cs) cpus f a room =
      parse_loop-number fuel c cs (pieces (c ∷ cs)) cpus
        (skip_separators-digit (decimal c ++ pieces cs)
          (starts (decimal c) (pieces cs) (decimal-StartsDigit c)))
        a.0 (omega (arith, room))
      ∙ parse_loop-pieces fuel cs (cpus ++ c ∷ []) (omega (arith, f)) a.1
          (omega (arith, length-append cpus (c ∷ []), room))
      ∙ ap (λ x. some (some x)) (append_assoc cpus (c ∷ []) cs)

length-pieces : (cs : List ℕ) → length cs ≤ length (pieces cs)
unfolding pieces
length-pieces [] = omega arith
length-pieces (c ∷ cs) = omega (arith, length-append (decimal c) (pieces cs), length-pieces cs)

parse-text :
    (max_os_cpu max_cpus : ℕ) (t : List ℕ) (c : ℕ) (cs : List ℕ)
    → decimal c ++ pieces cs ≡ t
    → All (λ x. x < max_os_cpu) (c ∷ cs)
    → length (c ∷ cs) ≤ max_cpus
    → cpu_bind_parse_cpuset max_os_cpu t max_cpus ≡ some (some (c ∷ cs))
unfolding cpu_bind_parse_cpuset
parse-text m k [] c cs e a room =
    absurd (omega (arith, ap length e, length-append (decimal c) (pieces cs), length-decimal_pos c))
parse-text m k (d ∷ t) c cs e a room =
    parse_loop-number m k (length (d ∷ t)) c cs (d ∷ t) []
      (ap skip_separators (sym e)
        ∙ skip_separators-digit (decimal c ++ pieces cs)
            (starts (decimal c) (pieces cs) (decimal-StartsDigit c)))
      a.0 (omega (arith, room))
    ∙ parse_loop-pieces m k (length (d ∷ t)) cs (c ∷ [])
        (omega (
          arith,
          ap length e,
          length-append (decimal c) (pieces cs),
          length-decimal_pos c,
          length-pieces cs,
        ))
        a.1 (omega (arith, room))

-- cpu_bind_parse_cpuset reads back the text that cpu_bind_format_cpus writes for one or more
-- processors below MAX_OS_CPU, when there is room for so many and MAX_OS_CPU is at most 10^11.
pub parse_cpuset-format_cpus :
    (max_os_cpu max_cpus c : ℕ) (cs : List ℕ)
    → All (λ x. x < max_os_cpu) (c ∷ cs)
    → max_os_cpu ≤ ten_to 11
    → length (c ∷ cs) ≤ max_cpus
    → cpu_bind_parse_cpuset max_os_cpu (cpu_bind_format_cpus (c ∷ cs)) max_cpus
      ≡ some (some (c ∷ cs))
parse_cpuset-format_cpus m k c cs a small room =
    ap (λ s. cpu_bind_parse_cpuset m s k) (cpu_bind_format_cpus_lem c cs (All-le-ten (c ∷ cs) a))
    ∙ parse-text m k (decimal c ++ pieces cs) c cs refl a room
  where
    All-le-ten : (xs : List ℕ) → All (λ x. x < m) xs → All (λ x. x < ten_to 11) xs
    All-le-ten [] h = tt
    All-le-ten (x ∷ xs) h = (omega (arith, h.0, small), All-le-ten xs h.1)
