-- ===== src/RadioStore/Sure.antt =====
-- enhancements/0001-zigbee-ember/src/RadioStore.mts: `writeJsonAtomic` when no system call is
-- refused.
use homey_shs_enhanced.Disk.Rules.{chmod_op-eq, get_file-put_file}
use homey_shs_enhanced.RadioStore.Network.{directory_mode, file_mode}
use homey_shs_enhanced.RadioStore.Store.{write_json_atomic, temporary_path, init}
use homey_shs_enhanced.Json.{Value}
use homey_shs_enhanced.Disk.{
  get_file, remove_file, mkdir_op, rename_op, put_file, ignore, File, write_op, chmod_directory_op,
  sync, close, write_file, open_op, rename, chmod, chmod_directory, json_text, mkdir, broken_text,
  open_exclusive, recover, Content, file_at, continue, World, enter, perform, Disk,
}
use homey_shs_enhanced.Prelude.{
  text_eq_refl, arith, Option-cases, refl, inl, inr, sym, subst, Thrown, Result, Option, List, ℕ,
  Text, none, some, ok, err, ◌≡◌,
}

-- The system refuses nothing.
abbrev pub never : ℕ → Option Thrown
never n = none

-- The computation does not throw, and its value and last disk satisfy `Q`.
abbrev pub Sure : {A : Type 0} → (A → Disk → Type 0) → World × Result A → Type 0
Sure Q (w, ok a) = Q a w.disk
Sure Q (w, err e) = ⊥

pub Sure-value :
    {A : Type 0} (Q : A → Disk → Type 0) (o : World × Result A)
    → Sure Q o
    → (a : A) × (o.1 ≡ ok a) × Q a o.0.disk
Sure-value Q (w, ok a) h = (a, refl, h)
Sure-value Q (w, err e) h = absurd h

pub Sure-continue :
    {A B : Type 0} (P : A → Disk → Type 0) (Q : B → Disk → Type 0) (o : World × Result A)
    (f : A → World → World × Result B)
    → Sure P o
    → ((a : A) (w : World) → P a w.disk → Sure Q (f a w))
    → Sure Q (continue o f)
Sure-continue P Q (w, ok a) f h k = k a w h
Sure-continue P Q (w, err e) f h k = absurd h

pub Sure-recover :
    {A : Type 0} (P : A → Disk → Type 0) (o : World × Result A)
    (handler : Thrown → World → World × Result A)
    → Sure P o
    → Sure P (recover o handler)
Sure-recover P (w, ok a) handler h = h
Sure-recover P (w, err e) handler h = absurd h

-- A clean-up that changes no file of interest.
pub Sure-finally :
    {A : Type 0} (P : A → Disk → Type 0) (o : World × Result A)
    (f : World → World × Result (Unit {0}))
    → Sure P o
    → ((w : World) → (f w).0.disk ≡ w.disk)
    → Sure P ((f o.0).0, o.1)
Sure-finally P (w, ok a) f h same_disk = subst (λ d. P a d) (sym (same_disk w)) h
Sure-finally P (w, err e) f h same_disk = absurd h

pub Sure-perform :
    {A : Type 0} (P : A → Disk → Type 0) (refused : Disk → Disk) (op : Disk → Disk × Result A)
    (w : World) (d : Disk) (a : A)
    → op w.disk ≡ (d, ok a)
    → P a d
    → Sure P (perform never refused op w)
unfolding perform enter
Sure-perform P refused op w d a e h = rw e h

mkdir_op-none :
    (mode : ℕ) (d : Disk)
    → d.directory ≡ none
    → mkdir_op mode d ≡ (record d { directory = some mode }, ok tt)
unfolding mkdir_op
mkdir_op-none mode d h = ground arith

mkdir_op-some : (mode old : ℕ) (d : Disk) → d.directory ≡ some old → mkdir_op mode d ≡ (d, ok tt)
unfolding mkdir_op
mkdir_op-some mode old d h = ground arith

chmod_directory_op-some :
    (mode old : ℕ) (d : Disk)
    → d.directory ≡ some old
    → chmod_directory_op mode d ≡ (record d { directory = some mode }, ok tt)
unfolding chmod_directory_op
chmod_directory_op-some mode old d h = ground arith

open_op-none :
    (path : Text) (mode : ℕ) (d : Disk)
    → file_at path d ≡ none
    → open_op path mode d ≡ (
      record d { files = put_file path (record { content = broken_text; mode = mode }) d.files },
      ok tt,
    )
unfolding open_op
open_op-none path mode d h = ground arith

write_op-some :
    (path : Text) (content : Content) (d : Disk) (file : File)
    → file_at path d ≡ some file
    → write_op path content d
      ≡ (record d { files = put_file path (record file { content = content }) d.files }, ok tt)
unfolding write_op
write_op-some path content d file h = ground arith

rename_op-some :
    (source target : Text) (d : Disk) (file : File)
    → file_at source d ≡ some file
    → rename_op source target d
      ≡ (record d { files = put_file target file (remove_file source d.files) }, ok tt)
unfolding rename_op
rename_op-some source target d file h = ground arith

-- The directory is made, and the files are untouched.
module _ (P : List (Text × File) → Type 0) where
  abbrev HasDirectory : Unit {0} → Disk → Type 0
  HasDirectory _ d = P d.files × ((mode : ℕ) × (d.directory ≡ some mode))

  mkdir-Sure : (w : World) → P w.disk.files → Sure HasDirectory (mkdir never directory_mode w)
  unfolding mkdir
  mkdir-Sure w h = elim (Option-cases w.disk.directory) [
    | inl e ↦
        Sure-perform HasDirectory _ _ w (record w.disk { directory = some directory_mode }) tt
          (mkdir_op-none directory_mode w.disk e) (h, (directory_mode, refl))
    | inr (mode, e) ↦
        Sure-perform HasDirectory _ _ w w.disk tt (mkdir_op-some directory_mode mode w.disk e)
          (h, (mode, e))
  ]

  pub init-Sure :
      (directory pid : Text) (w : World)
      → P w.disk.files
      → Sure (λ (_ : Unit {0}) d. P d.files) (init never directory pid w)
  unfolding init chmod_directory
  init-Sure directory pid w h =
      Sure-continue HasDirectory (λ (_ : Unit {0}) d. P d.files) _ _ (mkdir-Sure w h)
        λ a w k.
          Sure-perform (λ (_ : Unit {0}) d. P d.files) _ _ w
            (record w.disk { directory = some directory_mode }) tt
            (chmod_directory_op-some directory_mode k.1.0 w.disk k.1.1) k.0

module _ (directory pid : Text) (random : List ℕ) (target : Text) (value : Value) where
  abbrev pub temporary : Text
  temporary = temporary_path target pid random

  abbrev Holds : Content → Disk → Type 0
  Holds content d = file_at temporary d ≡ some (record { content = content; mode = file_mode })

  abbrev pub Stored : Unit {0} → Disk → Type 0
  Stored _ d = file_at target d ≡ some (record { content = json_text value; mode = file_mode })

  abbrev pub Free : Disk → Type 0
  Free d = file_at temporary d ≡ none

  open-Sure :
      (w : World)
      → Free w.disk
      → Sure (λ (_ : Unit {0}) d. Holds broken_text d) (open_exclusive never temporary file_mode w)
  unfolding open_exclusive
  open-Sure w h =
      Sure-perform (λ (_ : Unit {0}) d. Holds broken_text d) _ _ w _ tt
        (open_op-none temporary file_mode w.disk h)
        (ground (
          arith,
          get_file-put_file temporary temporary (record { content = broken_text; mode = file_mode })
              w.disk.files,
          text_eq_refl temporary,
        ))

  write-Sure :
      (w : World)
      → Holds broken_text w.disk
      → Sure
          (λ (_ : Unit {0}) d. Holds (json_text value) d)
          (write_file never temporary (json_text value) w)
  unfolding write_file write_op
  write-Sure w h =
      let file : File = record { content = json_text value; mode = file_mode } in
      Sure-perform (λ (_ : Unit {0}) d. Holds (json_text value) d) _ _ w
        (record w.disk { files = put_file temporary file w.disk.files }) tt
        (write_op-some temporary (json_text value) w.disk
          (record { content = broken_text; mode = file_mode }) h)
        (ground
          (arith, get_file-put_file temporary temporary file w.disk.files, text_eq_refl temporary))

  rename-Sure :
      (w : World) → Holds (json_text value) w.disk → Sure Stored (rename never temporary target w)
  unfolding rename
  rename-Sure w h =
      let file : File = record { content = json_text value; mode = file_mode } in
      Sure-perform Stored _ _ w _ tt (rename_op-some temporary target w.disk file h) (
        ground (
          arith,
          get_file-put_file target target file (remove_file temporary w.disk.files),
          text_eq_refl target,
        ))

  chmod-Sure : (w : World) → Stored tt w.disk → Sure Stored (chmod never target file_mode w)
  unfolding chmod
  chmod-Sure w h =
      let file : File = record { content = json_text value; mode = file_mode } in
      Sure-perform Stored _ _ w _ tt (chmod_op-eq target file_mode w.disk file h)
        (ground (arith, get_file-put_file target target file w.disk.files, text_eq_refl target))

  close_same : (w : World) → (ignore (close never) w).0.disk ≡ w.disk
  unfolding close perform enter
  close_same w = refl

  fill-Sure :
      (w : World)
      → Holds broken_text w.disk
      → Sure
          (λ (_ : Unit {0}) d. Holds (json_text value) d)
          (continue (write_file never temporary (json_text value) w) (λ _. sync never))
  unfolding sync
  fill-Sure w h =
      Sure-continue (λ (_ : Unit {0}) d. Holds (json_text value) d)
        (λ (_ : Unit {0}) d. Holds (json_text value) d) _ _ (write-Sure w h)
        λ a w k. Sure-perform (λ (_ : Unit {0}) d. Holds (json_text value) d) _ _ w w.disk tt refl k

  -- The write gets to its end, and the file is what was to be written.
  pub write_json_atomic-Sure :
      (w : World)
      → Free w.disk
      → Sure Stored (write_json_atomic never directory pid random target value w)
  unfolding write_json_atomic
  write_json_atomic-Sure w h =
      Sure-continue (λ (_ : Unit {0}) d. Free d) Stored _ _
        (init-Sure (λ files. get_file temporary files ≡ none) directory pid w h)
        λ a w k.
          Sure-continue (λ (_ : Unit {0}) d. Holds broken_text d) Stored _ _ (open-Sure w k)
            λ a w k.
              Sure-continue (λ (_ : Unit {0}) d. Holds (json_text value) d) Stored _ _
                (Sure-finally (λ (_ : Unit {0}) d. Holds (json_text value) d) _
                  (ignore (close never))
                  (Sure-recover (λ (_ : Unit {0}) d. Holds (json_text value) d) _ _ (fill-Sure w k))
                  close_same)
                λ a w k.
                  Sure-continue Stored Stored _ _ (Sure-recover Stored _ _ (rename-Sure w k))
                    λ a w k. chmod-Sure w k
