-- ===== src/Storage/Logger/Retention.antt =====
-- src/storage/logger.rs: the cleanup, by the dates of the files.
use home_guard.Prelude.{
  ℕ, ◌+◌, ◌-◌, ◌≤◌, ◌<◌, ◌≡◌, ap, ◌∙◌, true, false, ◌&&◌, none, some, nat_eq, list_eq,
  if◌then◌else◌, All,
}
use home_guard.Prelude.Map.{lookup}
use home_guard.Prelude.Text.{Text, bytes}
use home_guard.Crates.Chrono.{Chrono, HasPlainYear}
use home_guard.Storage.Logger.{
  Files, Disk, AccessLogger, starts_with, ends_with, file_name, cleanup_old_logs,
}
use home_guard.Storage.Logger.Cleanup.{IsSafe, cleanup_old_logs_lem}
use home_guard.Storage.Logger.Names.{file_name-stays, file_name-goes, other_stays}

module _ (C : Chrono) (D : Disk) where
  -- When there is a retention that reaches back to no date before the first, the directory can be
  -- read, and the slice of no file name panics, neither does the cleanup. The file of a date whose
  -- year has four digits is then gone, where it can be removed, when the date lies more than the
  -- retention before today, and is as it was when it does not; a file whose name does not begin and
  -- end like that of a log file is as it was.
  pub cleanup_old_logs-file_name :
      (today : ℕ) (l : AccessLogger) (fs : Files)
      → All (λ f. IsSafe C D f.0) fs
      → 0 < l.retention_days
      → l.retention_days ≤ today
      → D.lists ≡ true
      → (out : Files) × (cleanup_old_logs C D today l fs ≡ some out)
        × ((d : ℕ)
            → HasPlainYear C d
            → D.removes (file_name C D d) ≡ true
            → d + l.retention_days < today
            → lookup (file_name C D d) out ≡ none)
        × ((d : ℕ)
            → HasPlainYear C d
            → today ≤ d + l.retention_days
            → lookup (file_name C D d) out ≡ lookup (file_name C D d) fs)
        × ((name : Text)
            → (starts_with (bytes "access-") name && ends_with (bytes ".log") name) ≡ false
            → lookup name out ≡ lookup name fs)
  cleanup_old_logs-file_name today l fs safe some_days reach listed =
      let (out, run, found) = cleanup_old_logs_lem C D today l fs safe some_days reach listed in
      (
        out,
        run,
        (λ d plain removable before.
            found (file_name C D d)
            ∙ ap (λ b. if b then none else lookup (file_name C D d) fs)
                (file_name-goes C D today l.retention_days d plain before removable)),
        (λ d plain recent.
            found (file_name C D d)
            ∙ ap (λ b. if b then none else lookup (file_name C D d) fs)
                (file_name-stays C D today l.retention_days d plain recent)),
        (λ name other.
            found name
            ∙ ap (λ b. if b then none else lookup name fs)
                (other_stays C D (today - l.retention_days) name other)),
      )
