-- ===== src/Gpt/Window.antt =====
-- libs/gpt/src/lib.rs: a partition, and a window onto a partition of a disk, which is a disk of its own.
use i3ml_os.Prelude.{ℕ, ◌+◌, ◌-◌, Bool, false, Option, none, List, ltb, if◌then◌else◌, wrap64}
use i3ml_os.Journal.{Sectors}

pub record Partition : Type 0 where
  pub type_guid : List ℕ
  pub first_lba : ℕ
  pub last_lba : ℕ

-- `Partition::sector_count`.
abbrev pub partition_sectors : Partition → ℕ
partition_sectors p = wrap64 (p.last_lba - p.first_lba + 1)

pub record Window : Type 0 where
  pub first : ℕ
  pub count : ℕ

-- `Window::new`.
abbrev pub window_new : Partition → Window
window_new p = record { first = p.first_lba; count = partition_sectors p }

module _ {D : Type 0} (w : Window) (storage : Sectors D) where
  unfoldable pub read_window : ℕ → D → Option (List ℕ) × D
  read_window sector d =
      if ltb sector w.count then storage.read_sector (wrap64 (w.first + sector)) d else (none, d)

  unfoldable pub write_window : ℕ → List ℕ → D → Bool × D
  write_window sector bytes d =
      if ltb sector w.count
      then storage.write_sector (wrap64 (w.first + sector)) bytes d
      else (false, d)

  -- `impl Sectors for Window`.
  abbrev pub window : Sectors D
  window = record {
    sector_count = λ d. w.count;
    read_sector = read_window;
    write_sector = write_window;
    flush_device = storage.flush_device;
  }
