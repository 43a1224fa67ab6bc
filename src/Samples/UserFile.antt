-- ===== src/Samples/UserFile.antt =====
-- The theorem on s_refresh_users, on a file that sets eight slots for the server and gives bob five. In
-- the second file alice, who is known with four slots, has nine.
use task_spooler_plus.Base.{
  ℕ, ℤ, pos, ◌≡◌, ◌⊎◌, ◌≤◌, refl, List, [], ◌∷◌, ◌++◌, String, Option, some, arith, length,
  if◌then◌else◌, ◌==◌,
}
use task_spooler_plus.State.{User, Env, send_list_line}
use task_spooler_plus.Outcome.{ok, ◌>>=◌}
use task_spooler_plus.Jobs.{emit}
use task_spooler_plus.Usage.{s_update_slots_usage}
use task_spooler_plus.Queue.{s_set_max_slots}
use task_spooler_plus.Answers.{find_user}
use task_spooler_plus.Cpuset.{read_number}
use task_spooler_plus.UserFile.{
  user_max, skip_spaces, scan_word, scan_digits, scan_signed, scan_int, strip_prefix, scan_equals,
  slots_line, scan_user, is_comment, enter_user, read_user, read_line, read_lines, read_user_file,
  is_unchanged, roll_back, answer_refresh, s_refresh_users,
}
use task_spooler_plus.UserFile.Growing.{Unique}
use task_spooler_plus.UserFile.Refresh.{s_refresh_users-keeps}
use task_spooler_plus.Samples.{quiet_env, two_queued}

-- "TS_SLOTS = 8\n"
abbrev eight_slots : List ℕ
eight_slots =
    b'T' ∷ b'S' ∷ b'_' ∷ b'S' ∷ b'L' ∷ b'O' ∷ b'T' ∷ b'S' ∷ b' ' ∷ b'=' ∷ b' ' ∷ b'8' ∷ 10 ∷ []

-- "bob 5\n"
abbrev bob_five : List ℕ
bob_five = b'b' ∷ b'o' ∷ b'b' ∷ b' ' ∷ b'5' ∷ 10 ∷ []

-- "a 9\n"
abbrev alice_nine : List ℕ
alice_nine = b'a' ∷ b' ' ∷ b'9' ∷ 10 ∷ []

abbrev uid_of : List ℕ → Option (String × ℤ)
uid_of name = if length name == 3 then some ("bob", pos 1001) else some ("alice", pos 1000)

abbrev bob_comes : Env
bob_comes = record quiet_env { user_file = some (eight_slots ∷ bob_five ∷ []); getpwnam = uid_of }

slots_line_test : slots_line eight_slots ≡ some (pos 8)
unfolding slots_line strip_prefix scan_equals skip_spaces scan_int scan_signed scan_digits
    read_number
slots_line_test = refl

scan_user_test : scan_user bob_five ≡ some (b'b' ∷ b'o' ∷ b'b' ∷ [], pos 5)
unfolding scan_user scan_word skip_spaces scan_int scan_signed scan_digits read_number
scan_user_test = refl

-- Alice is known with four slots: the file is refused, but the server has eight slots after it.
refused_test :
    s_refresh_users
      (record quiet_env { user_file = some (eight_slots ∷ alice_nine ∷ []); getpwnam = uid_of })
      two_queued
      (pos 5)
    ≡ ok (emit (send_list_line (pos 5)) (record two_queued { max_slots = pos 8 }))
unfolding s_refresh_users read_user_file read_lines read_line is_comment slots_line strip_prefix
    scan_equals skip_spaces scan_int scan_signed scan_digits read_number scan_user scan_word
    read_user enter_user find_user s_set_max_slots answer_refresh is_unchanged roll_back
refused_test = refl

two_queued-Unique : Unique two_queued.users
unfolding find_user
two_queued-Unique = (refl, (refl, tt))

s_refresh_users-keeps_example :
    (n : ℤ) × (((new : List User) × Unique (two_queued.users ++ new)
        × (length (two_queued.users ++ new) ≤ user_max)
        × (s_refresh_users bob_comes two_queued (pos 5) ≡ (
            s_update_slots_usage bob_comes (
              emit
                (send_list_line (pos 5))
                (record two_queued { users = two_queued.users ++ new; max_slots = n }))
            >>= λ r. ok r.0)))
      ⊎ (s_refresh_users bob_comes two_queued (pos 5)
          ≡ ok (emit (send_list_line (pos 5)) (record two_queued { max_slots = n }))))
s_refresh_users-keeps_example =
    s_refresh_users-keeps bob_comes two_queued (pos 5) (eight_slots ∷ bob_five ∷ []) refl
      two_queued-Unique (omega arith)
