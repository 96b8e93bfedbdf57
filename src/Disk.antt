-- ===== src/Disk.antt =====
-- The file system that enhancements/0001-zigbee-ember/src/RadioStore.mts works on: one directory
-- and its files, system calls that may fail, and the disk after each of them.
pub mod Rules
use homey_shs_enhanced.Json.{Value}
use homey_shs_enhanced.Prelude.{
  text, text_eq, system_error, List, Text, Result, ℕ, Option, Thrown, ◌+◌, [], none, some, ok, err,
  ◌∷◌, if◌then◌else◌,
}

-- What a file holds: the text of `JSON.stringify(value, null, 2)` and a newline, or a text that
-- `JSON.parse` refuses, such as a truncated one.
pub data Content : Type 0 where
  json_text : Value → Content
  broken_text : Content

pub record File : Type 0 where
  pub content : Content
  pub mode : ℕ

pub record Disk : Type 0 where
  -- The directory's mode, if it exists.
  pub directory : Option ℕ
  pub files : List (Text × File)

unfoldable pub get_file : Text → List (Text × File) → Option File
get_file path [] = none
get_file path ((p, f) ∷ fs) = if text_eq p path then some f else get_file path fs

unfoldable pub put_file : Text → File → List (Text × File) → List (Text × File)
put_file path file [] = (path, file) ∷ []
put_file path file ((p, f) ∷ fs) =
    if text_eq p path then (path, file) ∷ fs else (p, f) ∷ put_file path file fs

-- Every entry of the path.
unfoldable pub remove_file : Text → List (Text × File) → List (Text × File)
remove_file path [] = []
remove_file path ((p, f) ∷ fs) =
    if text_eq p path then remove_file path fs else (p, f) ∷ remove_file path fs

abbrev pub file_at : Text → Disk → Option File
file_at path disk = get_file path disk.files

-- `ticks` counts the system calls; `history` holds the disk after each of them, the latest first.
pub record World : Type 0 where
  pub disk : Disk
  pub ticks : ℕ
  pub history : List Disk

-- A computation that makes system calls and may throw.
abbrev pub Io : Type 0 → Type 0
Io A = World → World × Result A

abbrev pub continue : {A B : Type 0} → World × Result A → (A → Io B) → World × Result B
continue (w, ok a) f = f a w
continue (w, err e) f = (w, err e)

infixl 5 ◌>>=◌ ◌>>◌
abbrev pub ◌>>=◌ : {A B : Type 0} → Io A → (A → Io B) → Io B
◌>>=◌ m f w = continue (m w) f

abbrev pub ◌>>◌ : {B : Type 0} → Io (Unit {0}) → Io B → Io B
m >> k = m >>= λ _. k

abbrev pub lift : {A : Type 0} → Result A → Io A
lift r w = (w, r)

abbrev pub recover : {A : Type 0} → World × Result A → (Thrown → Io A) → World × Result A
recover (w, ok a) handler = (w, ok a)
recover (w, err e) handler = handler e w

-- `try { m } catch (error) { handler }`.
abbrev pub try_catch : {A : Type 0} → Io A → (Thrown → Io A) → Io A
try_catch m handler w = recover (m w) handler

-- `await m.catch(() => undefined)`.
abbrev pub ignore : Io (Unit {0}) → Io (Unit {0})
ignore m = try_catch m (λ _. lift (ok tt))

-- `try { m } finally { f }`, for an `f` that does not throw.
abbrev pub try_finally : {A : Type 0} → Io A → Io (Unit {0}) → Io A
try_finally m f w = let (w', r) = m w in ((f w').0, r)

abbrev pub no_entry : Thrown
no_entry = system_error (text "ENOENT") (text "no such file or directory")

abbrev pub entry_exists : Thrown
entry_exists = system_error (text "EEXIST") (text "file already exists")

unfoldable pub enter {ℓ} : {R : Type ℓ} → World → Disk × R → World × R
enter w (d, r) = (record { disk = d; ticks = w.ticks + 1; history = d ∷ w.history }, r)

abbrev pub succeed : Disk → Disk × Result (Unit {0})
succeed d = (d, ok tt)

abbrev pub with_file : Text → (File → File) → Disk → Disk
with_file path change d = elim (file_at path d) [
  | none ↦ d
  | some f ↦ record d { files = put_file path (change f) d.files }
]

-- What the calls do to the disk, where they do not fail.
unfoldable pub mkdir_op : ℕ → Disk → Disk × Result (Unit {0})
mkdir_op mode d = elim d.directory [
  | none ↦ succeed (record d { directory = some mode })
  | some _ ↦ succeed d
]

unfoldable pub chmod_directory_op : ℕ → Disk → Disk × Result (Unit {0})
chmod_directory_op mode d = elim d.directory [
  | none ↦ (d, err no_entry)
  | some _ ↦ succeed (record d { directory = some mode })
]

unfoldable pub chmod_op : Text → ℕ → Disk → Disk × Result (Unit {0})
chmod_op path mode d = elim (file_at path d) [
  | none ↦ (d, err no_entry)
  | some f ↦ succeed (record d { files = put_file path (record f { mode = mode }) d.files })
]

-- `fs.open(path, 'wx', mode)`.
unfoldable pub open_op : Text → ℕ → Disk → Disk × Result (Unit {0})
open_op path mode d = elim (file_at path d) [
  | some _ ↦ (d, err entry_exists)
  | none ↦
      succeed
        (record d { files = put_file path (record { content = broken_text; mode = mode }) d.files })
]

unfoldable pub write_op : Text → Content → Disk → Disk × Result (Unit {0})
write_op path content d = succeed (with_file path (λ f. record f { content = content }) d)

unfoldable pub rename_op : Text → Text → Disk → Disk × Result (Unit {0})
rename_op source target d = elim (file_at source d) [
  | none ↦ (d, err no_entry)
  | some f ↦ succeed (record d { files = put_file target f (remove_file source d.files) })
]

unfoldable pub remove_op : Text → Disk → Disk × Result (Unit {0})
remove_op path d = succeed (record d { files = remove_file path d.files })

unfoldable pub read_op : Text → Disk → Disk × Result Content
read_op path d = elim (file_at path d) [ none ↦ (d, err no_entry) | some f ↦ (d, ok f.content) ]

-- The operating system may refuse any call: `faults n` is the error of the call number `n`.
module _ (faults : ℕ → Option Thrown) where
  -- A refused call leaves the disk as `refused` says.
  unfoldable pub perform : {A : Type 0} → (Disk → Disk) → (Disk → Disk × Result A) → Io A
  unfolding enter
  perform refused op w = elim (faults w.ticks) [
    | none ↦ enter w (op w.disk)
    | some e ↦ enter w (refused w.disk, err e)
  ]

  abbrev pub same : Disk → Disk
  same d = d

  unfoldable pub mkdir : ℕ → Io (Unit {0})
  mkdir mode = perform same (mkdir_op mode)

  unfoldable pub chmod_directory : ℕ → Io (Unit {0})
  chmod_directory mode = perform same (chmod_directory_op mode)

  unfoldable pub chmod : Text → ℕ → Io (Unit {0})
  chmod path mode = perform same (chmod_op path mode)

  unfoldable pub open_exclusive : Text → ℕ → Io (Unit {0})
  open_exclusive path mode = perform same (open_op path mode)

  -- A refused write may have written a part of the text.
  unfoldable pub write_file : Text → Content → Io (Unit {0})
  write_file path content =
      perform (with_file path (λ f. record f { content = broken_text })) (write_op path content)

  -- `handle.sync()` and `handle.close()`.
  unfoldable pub sync : Io (Unit {0})
  sync = perform same succeed

  unfoldable pub close : Io (Unit {0})
  close = perform same succeed

  unfoldable pub rename : Text → Text → Io (Unit {0})
  rename source target = perform same (rename_op source target)

  -- `fs.rm(path, { force: true })`.
  unfoldable pub remove : Text → Io (Unit {0})
  remove path = perform same (remove_op path)

  unfoldable pub read_file : Text → Io Content
  read_file path = perform same (read_op path)
