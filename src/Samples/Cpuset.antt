-- ===== src/Samples/Cpuset.antt =====
-- The theorems on the text of a cpuset, and tests of its functions.
use task_spooler_plus.Base.{ℕ, List, [], ◌∷◌, some, none, ◌≡◌, ◌≢◌, refl, arith}
use task_spooler_plus.Cpuset.{
  digits, decimal, format_loop, cpu_bind_format_cpus, skip_separators, read_number, add_range,
  read_rest, parse_loop, cpu_bind_parse_cpuset,
}
use task_spooler_plus.Cpuset.Decimal.{ten_to}
use task_spooler_plus.Cpuset.RoundTrip.{parse_cpuset-format_cpus}
use task_spooler_plus.Cpuset.Ends.{cpu_bind_parse_cpuset-ends, parse_loop-stuck}

-- The texts "0,12" and "0-2,6".
abbrev two_numbers : List ℕ
two_numbers = b'0' ∷ b',' ∷ b'1' ∷ b'2' ∷ []

abbrev range_and_number : List ℕ
range_and_number = b'0' ∷ b'-' ∷ b'2' ∷ b',' ∷ b'6' ∷ []

format_two_numbers : cpu_bind_format_cpus (0 ∷ 12 ∷ []) ≡ two_numbers
unfolding cpu_bind_format_cpus format_loop decimal digits
format_two_numbers = refl

parse_range : cpu_bind_parse_cpuset 8 range_and_number 8 ≡ some (some (0 ∷ 1 ∷ 2 ∷ 6 ∷ []))
unfolding cpu_bind_parse_cpuset parse_loop skip_separators read_number read_rest add_range
parse_range = refl

parse_too_large : cpu_bind_parse_cpuset 8 two_numbers 8 ≡ some none
unfolding cpu_bind_parse_cpuset parse_loop skip_separators read_number read_rest add_range
parse_too_large = refl

parse_cpuset-format_cpus_example :
    cpu_bind_parse_cpuset 16 (cpu_bind_format_cpus (0 ∷ 12 ∷ [])) 2 ≡ some (some (0 ∷ 12 ∷ []))
unfolding ten_to
parse_cpuset-format_cpus_example =
    parse_cpuset-format_cpus 16 2 0 (12 ∷ []) (omega arith) (omega arith) (omega arith)

cpu_bind_parse_cpuset-ends_example : cpu_bind_parse_cpuset 8 range_and_number 8 ≢ none
cpu_bind_parse_cpuset-ends_example =
    cpu_bind_parse_cpuset-ends 8 8 range_and_number (refl, (refl, (refl, (refl, (refl, tt)))))

parse_loop-stuck_example : parse_loop 8 8 1000 (b'x' ∷ two_numbers) [] ≡ none
parse_loop-stuck_example = parse_loop-stuck 8 8 1000 b'x' two_numbers [] refl (omega arith)
