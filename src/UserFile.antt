-- ===== src/UserFile.antt =====
-- user.c read_user_file and server_user.c s_refresh_users: the users and their slots are read again from
-- the file of the environment. A line of the file is the list of its bytes. What is printed on the
-- server's own output is left out.
pub mod Growing
pub mod Refresh
use task_spooler_plus.Base.{
  ℕ, zero, suc, ℤ, pos, neg, ltb_ℤ, ◌==ℤ◌, ◌==◌, leb, List, [], ◌∷◌, ◌++◌, Option, none, some, Bool,
  true, false, ◌||◌, ◌&&◌, if◌then◌else◌, get_elem?, length, String,
}
use task_spooler_plus.State.{User, Server, Env, send_list_line}
use task_spooler_plus.Outcome.{Outcome, ok, died, ◌>>=◌}
use task_spooler_plus.Jobs.{emit, with_user}
use task_spooler_plus.Usage.{s_update_slots_usage}
use task_spooler_plus.Queue.{s_set_max_slots}
use task_spooler_plus.Answers.{find_user}
use task_spooler_plus.Cpuset.{is_digit, read_number}

-- isspace
abbrev pub is_space : ℕ → Bool
is_space c = (c == b' ') || (leb 9 c && leb c 13)

unfoldable pub skip_spaces : List ℕ → List ℕ
skip_spaces [] = []
skip_spaces (c ∷ s) = if is_space c then skip_spaces s else c ∷ s

-- %255s after the spaces: at most `width` bytes up to a space, and the rest.
unfoldable pub scan_word : ℕ → List ℕ → List ℕ × List ℕ
scan_word zero s = ([], s)
scan_word (suc width) [] = ([], [])
scan_word (suc width) (c ∷ s) = elim (is_space c) [
  | true ↦ ([], c ∷ s)
  | false ↦ let r = scan_word width s in (c ∷ r.0, r.1)
]

unfoldable pub scan_digits : List ℕ → Option ℤ
scan_digits [] = none
scan_digits (c ∷ s) = if is_digit c then some (pos ((read_number (c ∷ s) 0).0)) else none

unfoldable pub scan_signed : List ℕ → Option ℤ
scan_signed [] = none
scan_signed (c ∷ s) =
    if c == b'-'
    then elim (scan_digits s) [ none ↦ none | some n ↦ some (neg n) ]
    else if c == b'+'
    then scan_digits s
    else scan_digits (c ∷ s)

-- %d, which skips spaces.
unfoldable pub scan_int : List ℕ → Option ℤ
scan_int s = scan_signed (skip_spaces s)

-- What follows a word at the head of a line.
unfoldable pub strip_prefix : List ℕ → List ℕ → Option (List ℕ)
strip_prefix [] s = some s
strip_prefix (w ∷ ws) [] = none
strip_prefix (w ∷ ws) (c ∷ s) = if w == c then strip_prefix ws s else none

-- "TS_SLOTS"
abbrev ts_slots : List ℕ
ts_slots = b'T' ∷ b'S' ∷ b'_' ∷ b'S' ∷ b'L' ∷ b'O' ∷ b'T' ∷ b'S' ∷ []

-- " = %d"
unfoldable pub scan_equals : List ℕ → Option ℤ
scan_equals s = elim (skip_spaces s) [
  | [] ↦ none
  | c ∷ rest ↦ if c == b'=' then scan_int rest else none
]

-- A line that sets the number of slots, which must be positive.
unfoldable pub slots_line : List ℕ → Option ℤ
slots_line line = elim (strip_prefix ts_slots line) [
  | none ↦ none
  | some s ↦ elim (scan_equals s) [
    | none ↦ none
    | some n ↦ if ltb_ℤ (pos 0) n then some n else none
  ]
]

-- "%255s %d"
unfoldable pub scan_user : List ℕ → Option (List ℕ × ℤ)
scan_user line =
    let (name, rest) = scan_word 255 (skip_spaces line) in
    if length name == 0
    then none
    else elim (scan_int rest) [ none ↦ none | some slots ↦ some (name, slots) ]

unfoldable pub is_comment : List ℕ → Bool
is_comment [] = false
is_comment (c ∷ s) = c == b'#'

-- USER_MAX
abbrev pub user_max : ℕ
user_max = 100

abbrev pub with_slots : ℤ → User → User
with_slots n x = record x { max_slots = n }

abbrev pub new_user : String → ℤ → ℤ → User
new_user text id slots = record {
  name = text;
  uid = id;
  max_slots = slots;
  busy = pos 0;
  jobs = pos 0;
  queue = pos 0;
  is_locked_user = false;
}

-- A known user gets the slots, another is added while there is room and memory.
unfoldable pub enter_user : Server → String → ℤ → ℤ → Server
enter_user s text uid slots = elim (find_user s.users uid) [
  | some u ↦ with_user s u (with_slots slots)
  | none ↦
      if leb user_max (length s.users)
      then s
      else record s { users = s.users ++ new_user text uid slots ∷ [] }
]

unfoldable pub read_user : Env → List ℕ → Server → Server
read_user e line s = elim (scan_user line) [
  | none ↦ s
  | some (name, slots) ↦ elim (e.getpwnam name) [
    | none ↦ s
    | some (text, uid) ↦ enter_user s text uid slots
  ]
]

unfoldable pub read_line : Env → List ℕ → Server → Server
read_line e line s = elim (is_comment line) [
  | true ↦ s
  | false ↦ elim (slots_line line) [
    | some n ↦ s_set_max_slots s (pos 0) n
    | none ↦ read_user e line s
  ]
]

unfoldable pub read_lines : Env → List (List ℕ) → Server → Server
read_lines e [] s = s
read_lines e (line ∷ ls) s = read_lines e ls (read_line e line s)

-- The server ends when it cannot open the file.
unfoldable pub read_user_file : Env → Server → Outcome Server
read_user_file e s = elim e.user_file [ none ↦ died | some lines ↦ ok (read_lines e lines s) ]

-- old_uid and old_slots
abbrev pub snapshot : List User → List (ℤ × ℤ)
snapshot [] = []
snapshot (x ∷ xs) = (x.uid, x.max_slots) ∷ snapshot xs

-- Whether each old user is found with its slots.
unfoldable pub is_unchanged : List (ℤ × ℤ) → List User → Bool
is_unchanged [] us = true
is_unchanged ((uid, slots) ∷ old) us = elim (find_user us uid) [
  | none ↦ false
  | some u ↦ elim (get_elem? us u) [
    | none ↦ false
    | some x ↦ (x.max_slots ==ℤ slots) && is_unchanged old us
  ]
]

-- The users after the old ones are dropped, and the old ones get their slots back.
unfoldable pub roll_back : List (ℤ × ℤ) → List User → List User
roll_back [] us = []
roll_back (o ∷ old) [] = []
roll_back ((uid, slots) ∷ old) (x ∷ us) = with_slots slots x ∷ roll_back old us

-- The answer to the client, on the users that were read and the old ones.
unfoldable pub answer_refresh : Env → ℤ → List (ℤ × ℤ) → Server → Outcome Server
answer_refresh e sock old t =
    if is_unchanged old t.users
    then (s_update_slots_usage e (emit (send_list_line sock) t) >>= λ r. ok r.0)
    else ok (emit (send_list_line sock) (record t { users = roll_back old t.users }))

-- With memory for the two arrays.
unfoldable pub s_refresh_users : Env → Server → ℤ → Outcome Server
s_refresh_users e s sock = read_user_file e s >>= λ t. answer_refresh e sock (snapshot s.users) t
