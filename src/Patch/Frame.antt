-- ===== src/Patch/Frame.antt =====
-- enhancements/0001-zigbee-ember/apply.mjs: the files that the script changes.
-- Neither path is the other's.
use homey_shs_enhanced.Patch.Script.{
  bridge_manager_file, copy_overlay, manager_file, replacements, change_if, changed_files,
  change_files, apply,
}
use homey_shs_enhanced.Patch.{
  Compatibility, replaced, read_file, and_then, write_replaced, Replacement, replace_each,
  write_file, copy_new, replace_exact, Tree,
}
use homey_shs_enhanced.Prelude.{
  All, Result-cases, List, Option-cases, Result, text_eq, Thrown, Option, Text, [], refl, false,
  none, some, ok, err, inl, inr, ◌∙◌, ◌≡◌, ◌∷◌,
}

abbrev pub Keeps : Text → (Tree → Tree × Result (Unit {0})) → Type 0
Keeps path f = (t : Tree) → (f t).0 path ≡ t path

and_then-Keeps :
    (path : Text) (t : Tree) (o : Tree × Result (Unit {0})) (g : Tree → Tree × Result (Unit {0}))
    → o.0 path ≡ t path
    → Keeps path g
    → (and_then o g).0 path ≡ t path
and_then-Keeps path t (t', err e) g h k = h
and_then-Keeps path t (t', ok _) g h k = k t' ∙ h

module _ (refused : Text → Option Thrown) (path : Text) where
  write_file-keeps :
      (t : Tree) (file contents : Text)
      → text_eq file path ≡ false
      → (write_file refused t file contents).0 path ≡ t path
  unfolding write_file
  write_file-keeps t file contents apart = elim (Option-cases (refused file)) [
    | inl e ↦ rw (e, write_file, apart) refl
    | inr (x, e) ↦ rw (e, write_file) refl
  ]

  write_replaced-keeps :
      (t : Tree) (file : Text) (contents : Option Text)
      → text_eq file path ≡ false
      → (write_replaced refused t file contents).0 path ≡ t path
  write_replaced-keeps t file none apart = refl
  write_replaced-keeps t file (some c) apart = write_file-keeps t file c apart

  replace_exact-Keeps :
      (r : Replacement) → text_eq r.file path ≡ false → Keeps path (replace_exact refused r)
  unfolding replace_exact
  replace_exact-Keeps r apart t = elim (Result-cases (read_file t r.file)) [
    | inl (c, e) ↦
        rw (e, replace_exact)
          (write_replaced-keeps t r.file (replaced r.old_value r.new_value c) apart)
    | inr (x, e) ↦ rw (e, replace_exact) refl
  ]

  pub replace_each-Keeps :
      (rs : List Replacement)
      → All (λ r. text_eq r.file path ≡ false) rs
      → Keeps path (replace_each refused rs)
  unfolding replace_each
  replace_each-Keeps [] h t = refl
  replace_each-Keeps (r ∷ rs) (apart, h) t =
      and_then-Keeps path t (replace_exact refused r t) (replace_each refused rs)
        (replace_exact-Keeps r apart t) (replace_each-Keeps rs h)

  copy_new-Keeps :
      (source target : Text)
      → text_eq target path ≡ false
      → Keeps path (copy_new refused source target)
  unfolding copy_new
  copy_new-Keeps source target apart t = elim (Result-cases (read_file t source)) [
    | inr (x, e) ↦ rw (e, copy_new) refl
    | inl (c, e) ↦ elim (Option-cases (t target)) [
      | inl f ↦ rw (e, copy_new, f) (write_file-keeps t target c apart)
      | inr (y, f) ↦ rw (e, copy_new, f) refl
    ]
  ]

  module _ (sha256 : Text → Text) (version_of : Text → Result Text) (overlay : Result Text) where
    pub copy_overlay-Keeps :
        (o : Result Text)
        → text_eq manager_file path ≡ false
        → Keeps path (copy_overlay sha256 version_of refused o)
    copy_overlay-Keeps (err e) apart t = refl
    copy_overlay-Keeps (ok c) apart t = write_file-keeps t manager_file c apart

    change_files-Keeps :
        All (λ file. text_eq file path ≡ false) changed_files
        → Keeps path (change_files sha256 version_of refused overlay)
    unfolding change_files
    change_files-Keeps h t =
        let edited = replace_each refused replacements t in
        let copied = and_then edited (copy_new refused manager_file bridge_manager_file) in
        and_then-Keeps path t copied (copy_overlay sha256 version_of refused overlay)
          (and_then-Keeps path t edited (copy_new refused manager_file bridge_manager_file)
            (replace_each-Keeps replacements (h.0, (h.1.0, (h.1.0, tt))) t)
            (copy_new-Keeps manager_file bridge_manager_file h.1.1.1.0))
          (copy_overlay-Keeps overlay h.1.1.0)

    change_if-Keeps :
        (r : Result (Unit {0}))
        → All (λ file. text_eq file path ≡ false) changed_files
        → Keeps path (change_if sha256 version_of refused r overlay)
    change_if-Keeps (err e) h t = refl
    change_if-Keeps (ok u) h t = change_files-Keeps h t

-- The script writes only the four files that it lists, whether it succeeds or stops on the way: any
-- other path has the contents that it had before.
pub apply-frame :
    (sha256 : Text → Text) (version_of : Text → Result Text) (refused : Text → Option Thrown)
    (manifest : Compatibility) (overlay : Result Text) (t : Tree) (path : Text)
    → All (λ file. text_eq file path ≡ false) changed_files
    → (apply sha256 version_of refused manifest overlay t).0 path ≡ t path
unfolding apply
apply-frame sha256 version_of refused manifest overlay t path h =
    change_if-Keeps refused path sha256 version_of overlay _ h t
