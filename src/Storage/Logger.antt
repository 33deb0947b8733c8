-- ===== src/Storage/Logger.antt =====
-- src/storage/logger.rs: the access log, with a file for each day. The directory is a map from file
-- names to lines; a line counts as written when it is in the writer's buffer. The current date, and
-- what the file system refuses, are arguments; `none` stands for a panic.
pub mod Cleanup
pub mod Names
pub mod Retention
pub mod Writing
mod Tests
use home_guard.Prelude.{
  ℕ, ◌+◌, ◌-◌, Bool, true, false, ◌&&◌, Option, none, some, List, [], ◌∷◌, ◌++◌, if◌then◌else◌,
  ◌==◌, nat_eq, list_eq, ltb, leb, length, take, drop, ◌>>=◌,
}
use mathlib.Core.Option.{get_or}
use home_guard.Prelude.Map.{lookup, insert, remove}
use home_guard.Prelude.Text.{Text, bytes}
use home_guard.Prelude.Utf8.{is_utf8, is_char_boundary}
use home_guard.Crates.Chrono.{Chrono}
use home_guard.Rule.Types.{Policy}
use home_guard.Storage.Entry.{
  LogGranularity, blocked_and_proxy, should_log_dns, should_log_tcp, DnsLogEntry, TcpLogEntry,
}

-- `starts_with` and `ends_with`
unfoldable pub starts_with : Text → Text → Bool
starts_with prefix s = take (length prefix) s == prefix

unfoldable pub ends_with : Text → Text → Bool
ends_with suffix s = leb (length suffix) (length s) && (drop (length s - length suffix) s == suffix)

abbrev pub Files : Type 0
Files = List (Text × List Text)

-- What the file system allows: opening a file, listing the directory, removing a file.
pub record Disk : Type 0 where
  pub opens : Text → Bool
  pub lists : Bool
  pub removes : Text → Bool

-- The writer is the name of its file.
pub record AccessLogger : Type 0 where
  pub writer : Option Text
  pub current_date : ℕ
  pub granularity : LogGranularity
  pub retention_days : ℕ
  pub enabled : Bool

unfoldable pub new : ℕ → LogGranularity → ℕ → AccessLogger
new today granularity retention = record {
  writer = none;
  current_date = today;
  granularity = granularity;
  retention_days = retention;
  enabled = true;
}

unfoldable pub disabled : ℕ → AccessLogger
disabled today = record {
  writer = none;
  current_date = today;
  granularity = blocked_and_proxy;
  retention_days = 0;
  enabled = false;
}

unfoldable pub set_granularity : LogGranularity → AccessLogger → AccessLogger
set_granularity granularity l = record l { granularity = granularity }

module _ (C : Chrono) (D : Disk) where
  abbrev pub file_name : ℕ → Text
  file_name date = bytes "access-" ++ (C.format date ++ bytes ".log")

  -- A file that exists is opened for appending, another one is created; the flag says whether it
  -- succeeded.
  unfoldable pub open_log_file : AccessLogger → Files → Bool × AccessLogger × Files
  open_log_file l fs =
      let name = file_name l.current_date in
      if D.opens name
      then (true, record l { writer = some name }, insert name (get_or (lookup name fs) []) fs)
      else (false, l, fs)

  -- The date in a file name, where it is a string; `none` is the panic of the slice `[7..17]`.
  unfoldable pub date_of : Text → Option (Option ℕ)
  unfolding is_utf8 is_char_boundary starts_with ends_with
  date_of name =
      if is_utf8 name && (starts_with (bytes "access-") name && ends_with (bytes ".log") name)
      then (if is_char_boundary 7 name && is_char_boundary 17 name
          then some (C.parse (drop 7 (take 17 name)))
          else none)
      else some none

  -- Whether the file goes.
  abbrev pub is_old : ℕ → Option ℕ → Bool
  is_old cutoff none = false
  is_old cutoff (some date) = ltb date cutoff

  -- The loop over the entries of the directory, which acts on the files.
  unfoldable pub remove_old : ℕ → Files → Files → Option Files
  unfolding date_of
  remove_old cutoff [] fs = some fs
  remove_old cutoff ((name, lines) ∷ entries) fs = date_of name >>= λ date.
      remove_old cutoff entries
        (if is_old cutoff date && D.removes name then remove name fs else fs)

  -- The cutoff is not a date when it lies before the first one: a panic.
  unfoldable pub cleanup_old_logs : ℕ → AccessLogger → Files → Option Files
  unfolding remove_old
  cleanup_old_logs today l fs =
      if l.retention_days == 0
      then some fs
      else if ltb today l.retention_days
      then none
      else if D.lists
      then remove_old (today - l.retention_days) fs fs
      else some fs

  unfoldable pub rotate_if_needed : ℕ → AccessLogger → Files → Option (AccessLogger × Files)
  unfolding open_log_file cleanup_old_logs
  rotate_if_needed today l fs =
      if today == l.current_date
      then some (l, fs)
      else let (opened, l', fs') =
          open_log_file (record l { writer = none; current_date = today }) fs in
        (cleanup_old_logs today l' fs' >>= λ kept. some (l', kept))

  -- "Ensure we have a writer", and write the line.
  abbrev pub append_line : Text → AccessLogger → Files → AccessLogger × Files
  append_line line l fs = elim l.writer [
    | none ↦ (l, fs)
    | some name ↦ (l, insert name (get_or (lookup name fs) [] ++ line ∷ []) fs)
  ]

  abbrev pub ensure_writer : AccessLogger → Files → AccessLogger × Files
  unfolding open_log_file
  ensure_writer l fs = elim l.writer [
    | none ↦ (let (opened, l', fs') = open_log_file l fs in (l', fs'))
    | some name ↦ (l, fs)
  ]

  -- The line is the entry as JSON.
  unfoldable pub write_entry : ℕ → Text → AccessLogger → Files → Option (AccessLogger × Files)
  unfolding rotate_if_needed ensure_writer
  write_entry today line l fs = rotate_if_needed today l fs >>= λ (l', fs').
      let (l'', fs'') = ensure_writer l' fs' in some (append_line line l'' fs'')

  -- The serialization of an entry is an argument.
  unfoldable pub log_dns :
      ℕ → (DnsLogEntry → Text) → DnsLogEntry → AccessLogger → Files → Option (AccessLogger × Files)
  unfolding should_log_dns write_entry
  log_dns today json entry l fs =
      if l.enabled && should_log_dns (entry.result == bytes "blocked") l.granularity
      then write_entry today (json entry) l fs
      else some (l, fs)

  unfoldable pub log_tcp :
      ℕ
      → (TcpLogEntry → Text)
      → TcpLogEntry
      → Policy
      → AccessLogger
      → Files
      → Option (AccessLogger × Files)
  unfolding should_log_tcp write_entry
  log_tcp today json entry policy l fs =
      if l.enabled && should_log_tcp policy l.granularity
      then write_entry today (json entry) l fs
      else some (l, fs)

  -- `init`, once the directory exists; the error of opening the file is the flag.
  unfoldable pub init : ℕ → AccessLogger → Files → Option (Bool × AccessLogger × Files)
  unfolding open_log_file cleanup_old_logs
  init today l fs =
      if l.enabled
      then (let (opened, l', fs') = open_log_file l fs in
          if opened
          then (cleanup_old_logs today l' fs' >>= λ kept. some (true, l', kept))
          else some (false, l', fs'))
      else some (true, l, fs)
