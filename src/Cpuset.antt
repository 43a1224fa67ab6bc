-- ===== src/Cpuset.antt =====
-- cpu_bind.c: the text of the processors of an allocation, as it is written to cpuset.cpus and read
-- back after a restart. A text is the list of its bytes, without the null byte.
pub mod Decimal
pub mod RoundTrip
pub mod Ends
use task_spooler_plus.Base.{
  ℕ, zero, suc, ◌+◌, ◌-◌, ◌*◌, ◌/◌, ◌%◌, List, [], ◌∷◌, ◌++◌, Option, none, some, Bool, true, false,
  ◌||◌, ◌&&◌, if◌then◌else◌, ltb, leb, ◌==◌, length,
}

-- The digits of a positive number before `out`, with fuel for their number; then the C library's %d.
unfoldable pub digits : ℕ → ℕ → List ℕ → List ℕ
digits zero n out = out
digits (suc fuel) n out = elim (n == 0) [
  | true ↦ out
  | false ↦ digits fuel (n / 10) ((b'0' + n % 10) ∷ out)
]

unfoldable pub decimal : ℕ → List ℕ
decimal n = if n == 0 then b'0' ∷ [] else digits n n []

-- The loop of cpu_bind_format_cpus, with what is in the buffer of `size` bytes so far.
unfoldable pub format_loop : ℕ → List ℕ → List ℕ → List ℕ
format_loop size out [] = out
format_loop size out (c ∷ cs) =
    let piece = if length out == 0 then decimal c else b',' ∷ decimal c in
    let rest = format_loop size (out ++ piece) cs in
    if leb (size - 1) (length out)
    then out
    else if leb (size - 1) (length out + length piece)
    then out
    else rest

-- On an allocation that is not NULL, with memory for the buffer.
unfoldable pub cpu_bind_format_cpus : List ℕ → List ℕ
cpu_bind_format_cpus cpus = format_loop (length cpus * 12 + 1) [] cpus

abbrev pub is_digit : ℕ → Bool
is_digit c = leb b'0' c && leb c b'9'

abbrev pub is_separator : ℕ → Bool
is_separator c = (c == b' ') || (c == b',')

unfoldable pub skip_separators : List ℕ → List ℕ
skip_separators [] = []
skip_separators (c ∷ s) = if is_separator c then skip_separators s else c ∷ s

-- The number at the head of a text, and the text behind it.
unfoldable pub read_number : List ℕ → ℕ → ℕ × List ℕ
read_number [] n = (n, [])
read_number (c ∷ s) n = elim (is_digit c) [
  | true ↦ read_number s (n * 10 + (c - b'0'))
  | false ↦ (n, c ∷ s)
]

-- `k` numbers from `i` on, as long as there is room.
unfoldable pub add_range : ℕ → ℕ → ℕ → List ℕ → List ℕ
add_range max_cpus zero i cpus = cpus
add_range max_cpus (suc k) i cpus =
    if ltb (length cpus) max_cpus then add_range max_cpus k (i + 1) (cpus ++ i ∷ []) else cpus

-- What follows the start of a range: the processors with it or with the range, and the rest of the text.
unfoldable pub read_rest : ℕ → ℕ → ℕ → List ℕ → List ℕ → Option (List ℕ × List ℕ)
read_rest max_os_cpu max_cpus start [] cpus = some (add_range max_cpus 1 start cpus, [])
read_rest max_os_cpu max_cpus start (c ∷ s) cpus =
    if c == b'-'
    then (let r = read_number s 0 in
        if leb max_os_cpu r.0 || ltb r.0 start
        then none
        else some (add_range max_cpus (suc (r.0 - start)) start cpus, r.1))
    else some (add_range max_cpus 1 start cpus, c ∷ s)

-- The loop of cpu_bind_parse_cpuset, with fuel for its rounds. The outer `none` means that the fuel ran
-- out, the inner one the return value -1.
unfoldable pub parse_loop : ℕ → ℕ → ℕ → List ℕ → List ℕ → Option (Option (List ℕ))
parse_loop max_os_cpu max_cpus zero s cpus = none
parse_loop max_os_cpu max_cpus (suc fuel) s cpus = elim (skip_separators s) [
  | [] ↦ some (some cpus)
  | c ∷ s' ↦
      let (start, r) = read_number (c ∷ s') 0 in
      elim (leb max_os_cpu start) [
        | true ↦ some none
        | false ↦ elim (read_rest max_os_cpu max_cpus start r cpus) [
          | none ↦ some none
          | some (cpus', rest) ↦ parse_loop max_os_cpu max_cpus fuel rest cpus'
        ]
      ]
]

unfoldable pub cpu_bind_parse_cpuset : ℕ → List ℕ → ℕ → Option (Option (List ℕ))
cpu_bind_parse_cpuset max_os_cpu [] max_cpus = some none
cpu_bind_parse_cpuset max_os_cpu (c ∷ s) max_cpus =
    parse_loop max_os_cpu max_cpus (suc (length (c ∷ s))) (c ∷ s) []
