-- ===== src/Patch.antt =====
-- enhancements/0001-zigbee-ember/apply.mjs: the script that patches an extracted tree of Homey's
-- sources, and scripts/check-herdsman.mjs, which checks herdsman's build. The SHA-256 digest and the
-- `version` of a JSON text are parameters; so is what the system refuses to write.
pub mod Places
pub mod Occurrences
pub mod Guards
pub mod Script
pub mod Frame
pub mod Success
use homey_shs_enhanced.Prelude.{
  Bool, plain_error, eq_exact, text, Thrown, system_error, text_eq, not, starts_by, length, Result,
  ℕ, Text, Option, List, [], zero, suc, none, some, ok, err, ◌+◌, ◌==◌, if◌then◌else◌, ◌∷◌, ◌++◌,
}

-- The files under the root, by the path that the script names them with.
abbrev pub Tree : Type 0
Tree = Text → Option Text

-- compatibility.json: each file with its expected digest, and the two versions.
pub record Compatibility : Type 0 where
  pub files : List (Text × Text)
  pub homey_shs_version : Text
  pub zigbee_version : Text

unfoldable pub read_file : Tree → Text → Result Text
read_file t path = elim (t path) [
  | none ↦ err (system_error (text "ENOENT") (text "no such file or directory"))
  | some contents ↦ ok contents
]

abbrev pub take_text : ℕ → Text → Text
take_text zero s = []
take_text (suc n) [] = []
take_text (suc n) (c ∷ s) = c ∷ take_text n s

abbrev pub drop_text : ℕ → Text → Text
drop_text zero s = s
drop_text (suc n) [] = []
drop_text (suc n) (c ∷ s) = drop_text n s

abbrev pub map_index : Option ℕ → Option ℕ
map_index none = none
map_index (some i) = some (suc i)

-- A place in the rest of a text, or else whether the text itself has one.
abbrev pub last_place : Bool → Option ℕ → Option ℕ
last_place here (some i) = some (suc i)
last_place here none = if here then some 0 else none

-- `indexOf` and `lastIndexOf`, with `none` for -1.
abbrev pub index_of_text : Text → Text → Option ℕ
index_of_text p [] = if starts_by eq_exact p [] then some 0 else none
index_of_text p (c ∷ s) =
    let rest = index_of_text p s in if starts_by eq_exact p (c ∷ s) then some 0 else map_index rest

abbrev pub last_index_of_text : Text → Text → Option ℕ
last_index_of_text p [] = if starts_by eq_exact p [] then some 0 else none
last_index_of_text p (c ∷ s) = last_place (starts_by eq_exact p (c ∷ s)) (last_index_of_text p s)

-- The replacement text of `replace`, where `$$`, `$&`, `` $` `` and `$'` stand for a dollar sign, the
-- match, and what is before and after it.
unfoldable pub expand : Text → Text → Text → Text → Text
expand before matched rest [] = []
expand before matched rest (c ∷ []) = c ∷ []
expand before matched rest (c ∷ d ∷ s) =
    let skipped = expand before matched rest s in
    let kept = expand before matched rest (d ∷ s) in
    if not (c == b'$')
    then c ∷ kept
    else if d == b'$'
    then b'$' ∷ skipped
    else if d == b'&'
    then matched ++ skipped
    else if d == b'`'
    then before ++ skipped
    else if d == 39
    then rest ++ skipped
    else c ∷ kept

abbrev pub splice : Text → Text → Text → ℕ → Text
splice old_value new_value contents i =
    let before = take_text i contents in
    let rest = drop_text (i + length old_value) contents in
    before ++ (expand before old_value rest new_value ++ rest)

abbrev pub replace_between : Text → Text → Text → Option ℕ → Option ℕ → Option Text
replace_between old_value new_value contents (some first) (some last) =
    if first == last then some (splice old_value new_value contents first) else none
replace_between old_value new_value contents _ _ = none

-- The contents that `replaceExact` writes; `none` where it throws.
unfoldable pub replaced : Text → Text → Text → Option Text
replaced old_value new_value contents =
    replace_between old_value new_value contents (index_of_text old_value contents)
      (last_index_of_text old_value contents)

-- The file, the old value and the new one.
pub record Replacement : Type 0 where
  pub file : Text
  pub old_value : Text
  pub new_value : Text

abbrev pub put_file : Tree → Text → Text → Tree
put_file t path contents p = if text_eq path p then some contents else t p

-- A step that may change the tree and may throw, and the next one.
abbrev pub and_then :
    Tree × Result (Unit {0}) → (Tree → Tree × Result (Unit {0})) → Tree × Result (Unit {0})
and_then (t, err e) next = (t, err e)
and_then (t, ok _) next = next t

-- `refused`: what the system answers to a write of that path, if it is an error.
module _ (refused : Text → Option Thrown) where
  unfoldable pub write_file : Tree → Text → Text → Tree × Result (Unit {0})
  write_file t path contents = elim (refused path) [
    | some e ↦ (t, err e)
    | none ↦ (put_file t path contents, ok tt)
  ]

  abbrev pub write_replaced : Tree → Text → Option Text → Tree × Result (Unit {0})
  write_replaced t file none = (
    t,
    err (
        plain_error
          (text "Compatibility patch did not find exactly one expected block in " ++ file)),
  )
  write_replaced t file (some contents) = write_file t file contents

  unfoldable pub replace_exact : Replacement → Tree → Tree × Result (Unit {0})
  replace_exact r t = elim (read_file t r.file) [
    | err e ↦ (t, err e)
    | ok contents ↦ write_replaced t r.file (replaced r.old_value r.new_value contents)
  ]

  unfoldable pub replace_each : List Replacement → Tree → Tree × Result (Unit {0})
  replace_each [] t = (t, ok tt)
  replace_each (r ∷ rs) t = and_then (replace_exact r t) (replace_each rs)

  -- `copyFile` with `COPYFILE_EXCL`.
  unfoldable pub copy_new : Text → Text → Tree → Tree × Result (Unit {0})
  copy_new source target t = elim (read_file t source) [
    | err e ↦ (t, err e)
    | ok contents ↦ elim (t target) [
      | some _ ↦ (t, err (system_error (text "EEXIST") (text "file already exists")))
      | none ↦ write_file t target contents
    ]
  ]
