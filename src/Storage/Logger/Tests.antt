-- ===== src/Storage/Logger/Tests.antt =====
-- A log over a few days, and the theorems at inputs.
use home_guard.Prelude.{
  ℕ, ◌+◌, ◌≤◌, ◌<◌, ◌≡◌, refl, true, false, ◌&&◌, inl, none, some, [], ◌∷◌, ◌++◌, nat_eq, list_eq,
  here, All, arith,
}
use home_guard.Prelude.Map
use home_guard.Prelude.Text.{Text, bytes}
use home_guard.Prelude.Utf8.{continuation, valid_from, is_utf8, is_char_boundary}
use home_guard.Crates.Chrono.{Chrono, HasPlainYear}
use home_guard.Prelude.Net.{v4}
use home_guard.Rule.Types.{direct, reject, show_policy}
use home_guard.Storage.Entry.{
  blocked_and_proxy, should_log_dns, should_log_tcp, TcpLogEntry, tcp_entry,
}
use home_guard.Storage.Logger.{
  Files, Disk, AccessLogger, starts_with, ends_with, file_name, open_log_file, date_of, remove_old,
  cleanup_old_logs, rotate_if_needed, ensure_writer, write_entry, log_tcp, new, init,
}
use home_guard.Storage.Logger.Cleanup.{IsShort, IsSafe, is_gone, cleanup_old_logs-IsShort}
use home_guard.Storage.Logger.Retention.{cleanup_old_logs-file_name}

-- A date is printed as one byte and nine zeros.
abbrev nine : Text
nine = 0 ∷ 0 ∷ 0 ∷ 0 ∷ 0 ∷ 0 ∷ 0 ∷ 0 ∷ 0 ∷ []

abbrev days : Chrono
days = record {
  format = λ d. d ∷ nine;
  parse = λ s. elim s [ [] ↦ none | d ∷ rest ↦ some d ];
  first_date = 1;
  last_date = 100;
  length-format = λ d low high. refl;
  format_ascii = λ d low high. (
    omega arith,
    (
      omega arith,
      (
        omega arith,
        (
          omega arith,
          (
            omega arith,
            (omega arith, (omega arith, (omega arith, (omega arith, (omega arith, tt))))),
          ),
        ),
      ),
    ),
  );
  parse-format = λ d low high. refl;
}

abbrev disk : Disk
disk = record { opens = λ name. true; lists = true; removes = λ name. true }

program : Unit {0}
unfolding continuation valid_from is_utf8 is_char_boundary Map.lookup Map.insert Map.remove
    should_log_dns should_log_tcp starts_with ends_with open_log_file date_of remove_old
    cleanup_old_logs rotate_if_needed ensure_writer write_entry log_tcp new init is_gone
program = tt

-- The name of the file of a date.
abbrev log : ℕ → Text
log d = file_name days disk d

abbrev yesterday : Files
yesterday = (log 2, bytes "a" ∷ []) ∷ (log 9, bytes "b" ∷ []) ∷ (bytes "notes", []) ∷ []

abbrev logger : AccessLogger
logger = record {
  writer = some (log 9);
  current_date = 9;
  granularity = blocked_and_proxy;
  retention_days = 7;
  enabled = true;
}

-- Serialized entries are cut to one line of one byte.
abbrev json : TcpLogEntry → Text
json entry = bytes "c"

abbrev connection : TcpLogEntry
unfolding tcp_entry show_policy
connection = tcp_entry [] (v4 1, 2) (v4 3, 443) none direct 5 6 7

runs :
    (log_tcp days disk 10 json connection reject logger yesterday
      ≡ some (
        record logger { writer = some (log 10); current_date = 10 },
        (log 9, bytes "b" ∷ []) ∷ (bytes "notes", []) ∷ (log 10, bytes "c" ∷ []) ∷ [],
      ))
    × (log_tcp days disk 9 json connection direct logger yesterday ≡ some (logger, yesterday))
unfolding program
runs = (refl, refl)

safe : All (λ f. IsSafe days disk f.0) yesterday
unfolding program
safe = ((some 2, refl), ((some 9, refl), ((none, refl), tt)))

cleanup_old_logs-file_name_example :
    (out : Files) × (cleanup_old_logs days disk 10 logger yesterday ≡ some out)
    × ((d : ℕ)
        → HasPlainYear days d
        → disk.removes (log d) ≡ true
        → d + 7 < 10
        → Map.lookup (log d) out ≡ none)
    × ((d : ℕ)
        → HasPlainYear days d
        → 10 ≤ d + 7
        → Map.lookup (log d) out ≡ Map.lookup (log d) yesterday)
    × ((name : Text)
        → (starts_with (bytes "access-") name && ends_with (bytes ".log") name) ≡ false
        → Map.lookup name out ≡ Map.lookup name yesterday)
cleanup_old_logs-file_name_example =
    cleanup_old_logs-file_name days disk 10 logger yesterday safe (omega arith) (omega arith) refl

-- A file with a short name.
abbrev short : Text
short = bytes "access-.log"

short-IsShort : IsShort days disk short
unfolding program
short-IsShort = record { prefix = refl; suffix = refl; utf8 = refl; short = inl (omega arith) }

-- A name that is not UTF-8 is passed over, and a character across byte 17 is a panic.
odd_names :
    (date_of days disk (0xff ∷ []) ≡ some none)
    × (date_of days disk (bytes "access-2024-01-0" ++ 0xc3 ∷ 0xa9 ∷ bytes ".log") ≡ none)
unfolding program
odd_names = (refl, refl)

cleanup_old_logs-IsShort_example :
    cleanup_old_logs days disk 10 logger ((short, []) ∷ yesterday) ≡ none
cleanup_old_logs-IsShort_example =
    cleanup_old_logs-IsShort days disk 10 logger ((short, []) ∷ yesterday) short (here refl)
      short-IsShort (omega arith) refl
