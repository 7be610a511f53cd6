-- ===== src/SystemRouter/Disk.antt =====
-- Files of YAML texts, and what the disk does with a file that the program writes.
use mo_ip_checker.Base.{ℕ, String, ◌≡◌, Text}
use mo_ip_checker.Base.Exec.{Result, ok}
use mo_ip_checker.Json.{Json}
use mo_ip_checker.SystemRouter.Sorted.{sort_keys}

-- `yaml.safe_load` and `yaml.safe_dump`, over the texts of the files
pub record Yaml : Type 1 where
  pub Document : Type 0
  pub safe_load : Document → Result Json
  pub safe_dump : Json → Document

-- What `safe_dump` writes of a value, `safe_load` reads as this value with the keys of every dict in their
-- order, by which `safe_dump` sorts them.
pub record IsYaml (Y : Yaml) : Type 0 where
  pub load-dump : (j : Json) → Y.safe_load (Y.safe_dump j) ≡ ok (sort_keys j)

-- A file's text and its permission bits
pub record File (Document : Type 0) : Type 0 where
  pub text : Document
  pub mode : ℕ

-- What comes of `open(path, "w")`, the write and the `chmod`: all succeed, the file cannot be opened, the
-- write ends with a part of the text, or the mode stays.
pub data Write (Document : Type 0) : Type 0 where
  completed : Write Document
  refused : Write Document
  cut : Document → Write Document
  mode_kept : Write Document

-- The writes of the file for cloud-init, of the files of others by their names, and of the program's
-- own file; and the mode of a file that `open` creates.
pub record Disk (Document : Type 0) : Type 0 where
  pub cloud_init : Write Text
  pub foreign : String → Write Document
  pub own : Write Document
  pub new_mode : ℕ

-- A failure is logged, and the loop goes on with the next file.
unfoldable pub rewritten :
    {Document : Type 0} → Write Document → Document → File Document → File Document
rewritten completed text file = record { text = text; mode = 0o600 }
rewritten refused text file = file
rewritten (cut part) text file = record { text = part; mode = file.mode }
rewritten mode_kept text file = record { text = text; mode = file.mode }
