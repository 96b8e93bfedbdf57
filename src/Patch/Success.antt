-- ===== src/Patch/Success.antt =====
-- enhancements/0001-zigbee-ember/apply.mjs: the files after the script has returned.
use homey_shs_enhanced.Patch.Frame.{copy_overlay-Keeps, replace_each-Keeps}
use homey_shs_enhanced.Patch.Script.{
  change_if, apply, change_files, replacements, bridge_manager_file, copy_overlay, manager_file,
}
use homey_shs_enhanced.Patch.{
  Compatibility, replace_each, read_file, copy_new, write_file, and_then, Tree,
}
use homey_shs_enhanced.Prelude.{
  ap, sym, ◌∙◌, All, arith, text_eq_refl, text_eq, Option-cases, text, Result, Thrown, Option, Text,
  refl, false, none, some, ok, err, inl, inr, ◌≡◌,
}

and_then-ok :
    (o : Tree × Result (Unit {0})) (g : Tree → Tree × Result (Unit {0}))
    → (and_then o g).1 ≡ ok tt
    → (o.1 ≡ ok tt) × (and_then o g ≡ g o.0)
and_then-ok (t, err e) g h = cc
and_then-ok (t, ok u) g h = (refl, refl)

module _ (refused : Text → Option Thrown) where
  write_file-ok :
      (t : Tree) (file contents : Text)
      → (write_file refused t file contents).1 ≡ ok tt
      → (write_file refused t file contents).0 file ≡ some contents
  unfolding write_file
  write_file-ok t file contents h = elim (Option-cases (refused file)) [
    | inl e ↦ rw (e, write_file, text_eq_refl file) refl
    | inr (x, e) ↦ absurd (ground (arith, h, e))
  ]

  copy_new-ok :
      (source target : Text) (t : Tree)
      → (copy_new refused source target t).1 ≡ ok tt
      → (contents : Text) × (t source ≡ some contents)
        × (t target ≡ none)
        × ((copy_new refused source target t).0 target ≡ some contents)
  unfolding copy_new read_file
  copy_new-ok source target t h = elim (Option-cases (t source)) [
    | inl e ↦ absurd (ground (arith, h, e))
    | inr (c, e) ↦ elim (Option-cases (t target)) [
      | inr (y, f) ↦ absurd (ground (arith, h, e, f))
      | inl f ↦
          let written : copy_new refused source target t ≡ write_file refused t target c =
            rw (e, copy_new, f) refl in
          (c, e, f, rw written (write_file-ok t target c (rw⁻¹ written h)))
    ]
  ]

  module _ (sha256 : Text → Text) (version_of : Text → Result Text) where
    copy_overlay-ok :
        (overlay : Result Text) (t : Tree)
        → (copy_overlay sha256 version_of refused overlay t).1 ≡ ok tt
        → (contents : Text) × (overlay ≡ ok contents)
          × ((copy_overlay sha256 version_of refused overlay t).0 manager_file ≡ some contents)
    copy_overlay-ok (err e) t h = cc
    copy_overlay-ok (ok c) t h = (c, refl, write_file-ok t manager_file c h)

    apart_manager : text_eq manager_file bridge_manager_file ≡ false
    unfolding text text_eq
    apart_manager = refl

    -- What a run that returns leaves.
    abbrev pub Installed : Result Text → Tree → Tree → Type 0
    Installed overlay t t' =
        (contents : Text) × (old : Text) × (overlay ≡ ok contents)
        × (t manager_file ≡ some old)
        × (t bridge_manager_file ≡ none)
        × (t' manager_file ≡ some contents)
        × (t' bridge_manager_file ≡ some old)

    edits_apart_manager : All (λ r. text_eq r.file manager_file ≡ false) replacements
    unfolding text text_eq
    edits_apart_manager = (refl, (refl, (refl, tt)))

    edits_apart_bridge : All (λ r. text_eq r.file bridge_manager_file ≡ false) replacements
    unfolding text text_eq
    edits_apart_bridge = (refl, (refl, (refl, tt)))

    change_files-Installed :
        (overlay : Result Text) (t : Tree)
        → (change_files sha256 version_of refused overlay t).1 ≡ ok tt
        → Installed overlay t (change_files sha256 version_of refused overlay t).0
    unfolding change_files
    change_files-Installed overlay t h =
        let edited = replace_each refused replacements t in
        let copied = and_then edited (copy_new refused manager_file bridge_manager_file) in
        let (copies, last) =
          and_then-ok copied (copy_overlay sha256 version_of refused overlay) h in
        let (edits, second) =
          and_then-ok edited (copy_new refused manager_file bridge_manager_file) copies in
        let (old, from, fresh, kept) =
          copy_new-ok manager_file bridge_manager_file edited.0 (rw⁻¹ second copies) in
        let (contents, given, put) = copy_overlay-ok overlay copied.0 (rw⁻¹ last h) in
        (
          contents,
          old,
          given,
          sym (replace_each-Keeps refused manager_file replacements edits_apart_manager t) ∙ from,
          sym (replace_each-Keeps refused bridge_manager_file replacements edits_apart_bridge t)
              ∙ fresh,
          ap (λ o. o.0 manager_file) last ∙ put,
          ap (λ o. o.0 bridge_manager_file) last
              ∙ copy_overlay-Keeps refused bridge_manager_file sha256 version_of overlay overlay
                  apart_manager copied.0
              ∙ ap (λ o. o.0 bridge_manager_file) second
              ∙ kept,
        )

    change_if-Installed :
        (r : Result (Unit {0})) (overlay : Result Text) (t : Tree)
        → (change_if sha256 version_of refused r overlay t).1 ≡ ok tt
        → Installed overlay t (change_if sha256 version_of refused r overlay t).0
    change_if-Installed (err e) overlay t h = cc
    change_if-Installed (ok u) overlay t h = change_files-Installed overlay t h

    -- When the script returns, Homey's own manager stands, as it was, in a file that did not exist
    -- before, and the overlay in its place; so the Bridge's code is never lost, nor overwritten by a
    -- second run.
    pub apply-Installed :
        (manifest : Compatibility) (overlay : Result Text) (t : Tree)
        → (apply sha256 version_of refused manifest overlay t).1 ≡ ok tt
        → Installed overlay t (apply sha256 version_of refused manifest overlay t).0
    unfolding apply
    apply-Installed manifest overlay t h = change_if-Installed _ overlay t h
