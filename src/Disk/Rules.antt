-- ===== src/Disk/Rules.antt =====
-- The file system that enhancements/0001-zigbee-ember/src/RadioStore.mts works on: files after a
-- change, and rules for every disk in a computation's history.
use homey_shs_enhanced.Disk.{
  mkdir_op, chmod_directory_op, file_at, chmod_op, read_op, continue, recover, File, Io, World,
  put_file, remove_file, perform, get_file, Disk,
}
use homey_shs_enhanced.Prelude.{
  text_eq, Thrown, Option, List, Text, ℕ, Result, text_eq_iff, arith, Option-cases, All, [], refl,
  none, some, ok, err, inl, inr, ◌∷◌, ◌≡◌, if◌then◌else◌,
}

pub get_file-put_file :
    (q p : Text) (f : File) (fs : List (Text × File))
    → get_file q (put_file p f fs) ≡ (if text_eq p q then some f else get_file q fs)
unfolding get_file put_file
get_file-put_file q p f [] = refl
get_file-put_file q p f ((r, g) ∷ fs) =
    ground (arith, text_eq_iff p q, text_eq_iff r p, text_eq_iff r q, get_file-put_file q p f fs)

pub get_file-remove_file :
    (q p : Text) (fs : List (Text × File))
    → get_file q (remove_file p fs) ≡ (if text_eq p q then none else get_file q fs)
unfolding get_file remove_file
get_file-remove_file q p [] = ground arith
get_file-remove_file q p ((r, g) ∷ fs) =
    ground (arith, text_eq_iff p q, text_eq_iff r p, text_eq_iff r q, get_file-remove_file q p fs)

-- `I` holds of every disk that the computation passed through, and `R` of its result and last disk.
pub record Good {A : Type 0} (I : Disk → Type 0) (R : Result A → Disk → Type 0)
    (o : World × Result A) : Type 0 where
  pub past : All I o.0.history
  pub now : R o.1 o.0.disk

module _ {I : Disk → Type 0} where
  pub Good-continue :
      {A B : Type 0} {R : Result A → Disk → Type 0} {Q : Result B → Disk → Type 0}
      (o : World × Result A) (f : A → Io B)
      → Good I R o
      → ((e : Thrown) (d : Disk) → R (err e) d → Q (err e) d)
      → ((a : A) (w : World) → All I w.history → R (ok a) w.disk → Good I Q (f a w))
      → Good I Q (continue o f)
  Good-continue (w, ok a) f g throw k = k a w g.past g.now
  Good-continue (w, err e) f g throw k = record { past = g.past; now = throw e w.disk g.now }

  pub Good-recover :
      {A : Type 0} {R Q : Result A → Disk → Type 0} (o : World × Result A) (handler : Thrown → Io A)
      → Good I R o
      → ((a : A) (d : Disk) → R (ok a) d → Q (ok a) d)
      → ((e : Thrown) (w : World) → All I w.history → R (err e) w.disk → Good I Q (handler e w))
      → Good I Q (recover o handler)
  Good-recover (w, ok a) handler g return k = record { past = g.past; now = return a w.disk g.now }
  Good-recover (w, err e) handler g return k = k e w g.past g.now

  -- A system call that may be refused, with the refusal's error known.
  pub Good-perform_refused :
      {A : Type 0} (R : Result A → Disk → Type 0) (faults : ℕ → Option Thrown)
      (refused : Disk → Disk) (op : Disk → Disk × Result A) (w : World)
      → ((r : Result A) (d : Disk) → R r d → I d)
      → All I w.history
      → ((e : Thrown) → faults w.ticks ≡ some e → R (err e) (refused w.disk))
      → R (op w.disk).1 (op w.disk).0
      → Good I R (perform faults refused op w)
  unfolding perform
  Good-perform_refused R faults refused op w keep past refusal done =
      elim (Option-cases (faults w.ticks)) [
        | inl e ↦ rw (e, perform) (record { past = (keep _ _ done, past); now = done })
        | inr (x, e) ↦
            rw (e, perform) (record { past = (keep _ _ (refusal x e), past); now = refusal x e })
      ]

  pub Good-perform :
      {A : Type 0} (R : Result A → Disk → Type 0) (faults : ℕ → Option Thrown)
      (refused : Disk → Disk) (op : Disk → Disk × Result A) (w : World)
      → ((r : Result A) (d : Disk) → R r d → I d)
      → All I w.history
      → ((e : Thrown) → R (err e) (refused w.disk))
      → R (op w.disk).1 (op w.disk).0
      → Good I R (perform faults refused op w)
  Good-perform R faults refused op w keep past refusal done =
      Good-perform_refused R faults refused op w keep past (λ e _. refusal e) done

  -- A clean-up that keeps what the computation reached.
  pub Good-finally :
      {A : Type 0} {R : Result A → Disk → Type 0} (o : World × Result A) (f : Io (Unit {0}))
      → Good I R o
      → (All I o.0.history → R o.1 o.0.disk → Good I (λ _ d. R o.1 d) (f o.0))
      → Good I R ((f o.0).0, o.1)
  Good-finally o f g k = let g' = k g.past g.now in record { past = g'.past; now = g'.now }

-- The calls on a file that is there.
pub read_op-eq :
    (path : Text) (d : Disk) (f : File)
    → file_at path d ≡ some f
    → read_op path d ≡ (d, ok f.content)
unfolding read_op
read_op-eq path d f h = rw (h, read_op)

pub chmod_op-eq :
    (path : Text) (mode : ℕ) (d : Disk) (f : File)
    → file_at path d ≡ some f
    → chmod_op path mode d
      ≡ (record d { files = put_file path (record f { mode = mode }) d.files }, ok tt)
unfolding chmod_op
chmod_op-eq path mode d f h = rw (h, chmod_op)

-- The calls on the directory change no file.
pub mkdir_op-files : (mode : ℕ) (d : Disk) → (mkdir_op mode d).0.files ≡ d.files
unfolding mkdir_op
mkdir_op-files mode d = ground arith

pub chmod_directory_op-files : (mode : ℕ) (d : Disk) → (chmod_directory_op mode d).0.files ≡ d.files
unfolding chmod_directory_op
chmod_directory_op-files mode d = ground arith
