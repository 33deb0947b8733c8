-- ===== src/Storage/Logger/Writing.antt =====
-- src/storage/logger.rs: a line that is logged is in the file of the day.
use home_guard.Prelude.{ℕ, ◌≡◌, ◌⊎◌, none, some, List, [], nat_eq, list_eq}
use mathlib.Core.Option.{get_or}
use home_guard.Prelude.Map.{lookup}
use home_guard.Prelude.Text.{Text}
use home_guard.Crates.Chrono.{Chrono}
use home_guard.Storage.Logger.{Files, Disk, AccessLogger, file_name}

module _ (C : Chrono) (D : Disk) where
  -- The writer, where there is one, writes to the file of the current date.
  abbrev pub IsOpen : AccessLogger → Type 0
  IsOpen l = (l.writer ≡ none) ⊎ (l.writer ≡ some (file_name C D l.current_date))

  -- The lines of a file that may not be there.
  abbrev pub lines_of : Text → Files → List Text
  lines_of name fs = get_or (lookup name fs) []

  -- Where a call leaves the logger: on the day, with the lines of the day's file as before.
  abbrev IsReady : ℕ → Files → AccessLogger → Files → Type 0
  IsReady today fs l' fs' =
      (l'.current_date ≡ today)
      × (lines_of (file_name C D today) fs' ≡ lines_of (file_name C D today) fs)
