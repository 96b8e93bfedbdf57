-- ===== src/RadioStore/Atomic.antt =====
-- enhancements/0001-zigbee-ember/src/RadioStore.mts: `writeJsonAtomic`, under every schedule of
-- refused system calls.
use homey_shs_enhanced.RadioStore.Store.{write_json_atomic, init, temporary_path}
use homey_shs_enhanced.Disk.Rules.{
  Good-recover, Good-finally, Good-perform, Good-continue, Good, get_file-put_file,
  get_file-remove_file,
}
use homey_shs_enhanced.RadioStore.Network.{directory_mode, file_mode}
use homey_shs_enhanced.Json.{Value}
use homey_shs_enhanced.Disk.{
  chmod, rename, open_exclusive, try_catch, try_finally, sync, ignore, close, write_file, Io, lift,
  continue, chmod_directory, mkdir, World, remove, remove_file, chmod_op, rename_op, mkdir_op,
  chmod_directory_op, remove_op, write_op, with_file, broken_text, json_text, open_op, File,
  file_at, Disk,
}
use homey_shs_enhanced.Prelude.{
  All, Thrown, Option, ℕ, List, text_eq_iff, text_eq_refl, Option-cases, arith, none, inl, inr,
  text_eq, Result, Text, false, some, ok, err, ◌≡◌, ◌⊎◌,
}

-- What an interrupted write leaves: the other file `q` as it was, and the target whole.
module _ (d0 : Disk) (q target : Text) (value : Value) (pid : Text) (random : List ℕ) where
  abbrev pub temporary : Text
  temporary = temporary_path target pid random

  abbrev pub new_file : File
  new_file = record { content = json_text value; mode = file_mode }

  abbrev pub IsWhole : Disk → Type 0
  IsWhole d =
      (file_at q d ≡ file_at q d0)
      × ((file_at target d ≡ file_at target d0) ⊎ (file_at target d ≡ some new_file))

  -- `P` holds besides, if the computation has not thrown.
  abbrev pub After : {A : Type 0} → (Disk → Type 0) → Result A → Disk → Type 0
  After P (ok a) d = IsWhole d × P d
  After P (err e) d = IsWhole d × Unit {0}

  pub After-IsWhole :
      {A : Type 0} (P : Disk → Type 0) (r : Result A) (d : Disk) → After P r d → IsWhole d
  After-IsWhole P (ok a) d h = h.0
  After-IsWhole P (err e) d h = h.0

  pub After-ok :
      {A : Type 0} (P : Disk → Type 0) (r : Result A) (d : Disk) {a : A}
      → r ≡ ok a
      → After P r d
      → IsWhole d × P d
  After-ok P (ok a) d e h = h
  After-ok P (err x) d e h = cc

  abbrev pub IsOpened : Disk → Type 0
  IsOpened d = file_at temporary d ≡ some (record { content = broken_text; mode = file_mode })

  abbrev pub IsFilled : Disk → Type 0
  IsFilled d = file_at temporary d ≡ some new_file

  abbrev pub IsReplaced : Disk → Type 0
  IsReplaced d = (file_at target d ≡ some new_file) × (file_at temporary d ≡ none)

  module _ (apart : text_eq temporary q ≡ false) (apart_target : text_eq temporary target ≡ false)
      (other : text_eq target q ≡ false) where
    mkdir_op-After :
        (d : Disk)
        → IsWhole d
        → After (λ _. Unit {0}) (mkdir_op directory_mode d).1 (mkdir_op directory_mode d).0
    unfolding mkdir_op
    mkdir_op-After d h = ground arith

    chmod_directory_op-After :
        (d : Disk)
        → IsWhole d
        → After
            (λ _. Unit {0})
            (chmod_directory_op directory_mode d).1
            (chmod_directory_op directory_mode d).0
    unfolding chmod_directory_op
    chmod_directory_op-After d h = ground arith

    open_op-After :
        (d : Disk)
        → IsWhole d
        → After IsOpened (open_op temporary file_mode d).1 (open_op temporary file_mode d).0
    unfolding open_op
    open_op-After d h = ground (
      arith,
      get_file-put_file q temporary (record { content = broken_text; mode = file_mode }) d.files,
      get_file-put_file target temporary (record { content = broken_text; mode = file_mode })
          d.files,
      get_file-put_file temporary temporary (record { content = broken_text; mode = file_mode })
          d.files,
      text_eq_refl temporary,
    )

    with_file-IsWhole :
        (change : File → File) (d : Disk) → IsWhole d → IsWhole (with_file temporary change d)
    with_file-IsWhole change d h = elim (Option-cases (file_at temporary d)) [
      | inl e ↦ rw (e, with_file) h
      | inr (f, e) ↦ ground (
        arith,
        get_file-put_file q temporary (change f) d.files,
        get_file-put_file target temporary (change f) d.files,
      )
    ]

    write_op-After :
        (d : Disk)
        → IsWhole d
        → IsOpened d
        → After IsFilled
            (write_op temporary (json_text value) d).1
            (write_op temporary (json_text value) d).0
    unfolding write_op
    write_op-After d h o = (
      with_file-IsWhole _ d h,
      ground
          (arith, get_file-put_file temporary temporary new_file d.files, text_eq_refl temporary),
    )

    rename_op-After :
        (d : Disk)
        → IsWhole d
        → IsFilled d
        → After IsReplaced (rename_op temporary target d).1 (rename_op temporary target d).0
    unfolding rename_op
    rename_op-After d h o = ground (
      arith,
      get_file-put_file q target new_file (remove_file temporary d.files),
      get_file-put_file target target new_file (remove_file temporary d.files),
      get_file-put_file temporary target new_file (remove_file temporary d.files),
      get_file-remove_file q temporary d.files,
      get_file-remove_file target temporary d.files,
      get_file-remove_file temporary temporary d.files,
      text_eq_refl target,
      text_eq_refl temporary,
      text_eq_iff temporary target,
      text_eq_iff target temporary,
    )

    remove_op-After :
        (d : Disk)
        → IsWhole d
        → After (λ _. Unit {0}) (remove_op temporary d).1 (remove_op temporary d).0
    unfolding remove_op
    remove_op-After d h = ground (
      arith,
      get_file-remove_file q temporary d.files,
      get_file-remove_file target temporary d.files,
    )

    chmod_op-After :
        (d : Disk)
        → IsWhole d
        → IsReplaced d
        → After IsReplaced (chmod_op target file_mode d).1 (chmod_op target file_mode d).0
    unfolding chmod_op
    chmod_op-After d h o = ground (
      arith,
      get_file-put_file q target new_file d.files,
      get_file-put_file target target new_file d.files,
      get_file-put_file temporary target new_file d.files,
      text_eq_refl target,
      text_eq_iff temporary target,
      text_eq_iff target temporary,
    )

    module _ (I : Disk → Type 0) (weaken : (d : Disk) → IsWhole d → I d)
        (faults : ℕ → Option Thrown) (directory : Text) where
      keep : {A : Type 0} (P : Disk → Type 0) (r : Result A) (d : Disk) → After P r d → I d
      keep P r d h = weaken d (After-IsWhole P r d h)

      Anything : Disk → Type 0
      Anything d = Unit {0}

      init-Good :
          (w : World)
          → All I w.history
          → IsWhole w.disk
          → Good I (After (λ _. Unit {0})) (init faults directory pid w)
      unfolding init mkdir chmod_directory
      init-Good w past h =
          Good-continue {R = After (λ _. Unit {0})} _ _
            (Good-perform _ faults _ _ w (keep _) past (λ e. (h, tt)) (mkdir_op-After w.disk h))
            (λ e d k. k)
            (λ a w' past' k.
              Good-perform _ faults _ _ w' (keep _) past' (λ e. (k.0, tt))
                (chmod_directory_op-After w'.disk k.0))

      give_up-Good :
          (Q : Disk → Type 0) (error : Thrown) (w : World)
          → All I w.history
          → IsWhole w.disk
          → Good I
              (After {A = Unit {0}} Q)
              (continue (remove faults temporary w) (λ _. lift (err error)))
      unfolding remove
      give_up-Good Q error w past h =
          Good-continue {R = After (λ _. Unit {0})} _ _
            (Good-perform _ faults _ _ w (keep _) past (λ e. (h, tt)) (remove_op-After w.disk h))
            (λ e d k. k) (λ a w' past' k. record { past = past'; now = (k.0, tt) })

      close-Good :
          (P : Disk → Type 0) (w : World)
          → All I w.history
          → ((d : Disk) → P d → IsWhole d)
          → P w.disk
          → Good I (λ (_ : Result (Unit {0})) d. P d) (ignore (close faults) w)
      unfolding close
      close-Good P w past whole h =
          Good-recover {R = λ (_ : Result (Unit {0})) d. P d} _ _
            (Good-perform _ faults _ _ w (λ r d k. weaken d (whole d k)) past (λ e. h) h)
            (λ a d k. k) (λ e w' past' k. record { past = past'; now = k })

      fill : Io (Unit {0})
      fill w = continue (write_file faults temporary (json_text value) w) (λ _. sync faults)

      fill-Good :
          (w : World)
          → All I w.history
          → IsWhole w.disk
          → IsOpened w.disk
          → Good I (After IsFilled) (fill w)
      unfolding fill write_file sync
      fill-Good w past h o =
          Good-continue {R = After IsFilled} _ _
            (Good-perform _ faults _ _ w (keep _) past (λ e. (with_file-IsWhole _ w.disk h, tt))
              (write_op-After w.disk h o))
            (λ e d k. k)
            (λ a w' past' k. Good-perform _ faults _ _ w' (keep _) past' (λ e. (k.0, tt)) k)

      filled : Io (Unit {0})
      filled =
          try_finally
            (try_catch fill (λ error w.
              continue (ignore (close faults) w)
                (λ _ w'. continue (remove faults temporary w') (λ _. lift (err error)))))
            (ignore (close faults))

      filled-Good :
          (w : World)
          → All I w.history
          → IsWhole w.disk
          → IsOpened w.disk
          → Good I (After IsFilled) (filled w)
      unfolding filled
      filled-Good w past h o =
          Good-finally _ (ignore (close faults))
            (Good-recover {R = After IsFilled} _ _ (fill-Good w past h o) (λ a d k. k)
              (λ e w' past' k.
                Good-continue {R = λ (_ : Result (Unit {0})) d. IsWhole d} _ _
                  (close-Good IsWhole w' past' (λ d l. l) k.0) (λ e d l. (l, tt))
                  (λ a w'' past'' l. give_up-Good IsFilled e w'' past'' l)))
            (λ past' k. close-Good _ _ past' (After-IsWhole IsFilled _) k)

      pub write_json_atomic-Good :
          (w : World)
          → All I w.history
          → IsWhole w.disk
          → Good I (After IsReplaced) (write_json_atomic faults directory pid random target value w)
      unfolding write_json_atomic open_exclusive rename chmod filled write_file fill
      write_json_atomic-Good w past h =
          Good-continue {R = After (λ _. Unit {0})} _ _ (init-Good w past h) (λ e d k. k)
            λ a w past k.
              Good-continue {R = After IsOpened} _ _
                (Good-perform _ faults _ _ w (keep _) past (λ e. (k.0, tt))
                  (open_op-After w.disk k.0))
                (λ e d l. l)
                λ a w past l.
                  Good-continue {R = After IsFilled} _ _ (filled-Good w past l.0 l.1) (λ e d m. m)
                    λ a w past m.
                      Good-continue {R = After IsReplaced} _ _
                        (Good-recover {R = After IsReplaced} _ _
                          (Good-perform _ faults _ _ w (keep _) past (λ e. (m.0, tt))
                            (rename_op-After w.disk m.0 m.1))
                          (λ a d n. n) (λ e w past n. give_up-Good IsReplaced e w past n.0))
                        (λ e d n. n)
                        λ a w past n.
                          Good-perform _ faults _ _ w (keep _) past (λ e. (n.0, tt))
                            (chmod_op-After w.disk n.0 n.1)
