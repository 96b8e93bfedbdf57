-- ===== src/Patch/Occurrences.antt =====
-- enhancements/0001-zigbee-ember/apply.mjs: what `replaceExact` makes of the occurrences of the old
-- value in a file.
use homey_shs_enhanced.Patch.Places.{
  Occurs-before, Occurs-stands_at, length-take_text, IsLast, last_index_of_text-IsLast,
  stands_at-split, drop_text-append, index_of_text-IsFirst, IsFirst, Occurs, stands_at,
}
use mathlib.Core.Path.{ap₂}
use homey_shs_enhanced.Patch.{expand, splice, replaced, replace_between, take_text, drop_text}
use homey_shs_enhanced.Prelude.{
  subst, ◌==◌, ◌||◌, ◌↔◌, sym, ◌+◌, ◌∙◌, Bool, Option, false, none, ap, Bool-cases, arith, length,
  ℕ, Text, [], refl, true, some, inl, inr, ◌∷◌, ◌++◌, ◌≤◌, ◌≡◌,
}

-- `b` and `rest` are what is before and after the only occurrence of `p`.
abbrev pub IsOnly : Text → Text → Text → Text → Type 0
IsOnly p s b rest = (s ≡ b ++ (p ++ rest)) × ((b' : Text) → Occurs p s b' → b' ≡ b)

same_place-IsOnly :
    (p s : Text) (i : ℕ)
    → IsFirst p s (some i)
    → IsLast p s (some i)
    → IsOnly p s (take_text i s) (drop_text (i + length p) s)
same_place-IsOnly p s i (found, l, f) (_, _, g) = (stands_at-split p s i found, only)
  where
    only : (b : Text) → Occurs p s b → b ≡ take_text i s
    only b o =
        let (here, inside) = Occurs-stands_at p s b o in
        let place : length b ≡ i = ground (arith, f (length b), g (length b)) in
        Occurs-before p s b o ∙ ap (λ n. take_text n s) place

rest-eq : (b p x y : Text) → b ++ (p ++ x) ≡ b ++ (p ++ y) → x ≡ y
rest-eq b p x y e =
    let once : p ++ x ≡ p ++ y =
      sym (drop_text-append b (p ++ x))
      ∙ ap (drop_text (length b)) e
      ∙ drop_text-append b (p ++ y) in
    sym (drop_text-append p x) ∙ ap (drop_text (length p)) once ∙ drop_text-append p y

Option-inj : {x y : Text} → Path (Option Text) (some x) (some y) → x ≡ y
Option-inj e = cc

-- No `$`.
abbrev pub has_dollar : Text → Bool
has_dollar [] = false
has_dollar (c ∷ s) = c == b'$' || has_dollar s

expand-plain :
    (before matched rest s : Text) → has_dollar s ≡ false → expand before matched rest s ≡ s
unfolding expand
expand-plain before matched rest [] h = refl
expand-plain before matched rest (c ∷ []) h = refl
expand-plain before matched rest (c ∷ d ∷ s) h =
    let plain : (c == b'$') ≡ false = ground arith in
    rw plain (ap (λ x. c ∷ x) (expand-plain before matched rest (d ∷ s) (ground arith)))

module _ (old_value new_value : Text) (plain : has_dollar new_value ≡ false) where
  -- The contents with the only occurrence of the old value replaced.
  abbrev pub Replaces : Text → Text → Type 0
  Replaces contents written =
      (before : Text) × (rest : Text) × IsOnly old_value contents before rest
      × (written ≡ before ++ (new_value ++ rest))

  splice-plain :
      (s : Text) (i : ℕ)
      → splice old_value new_value s i
        ≡ take_text i s ++ (new_value ++ drop_text (i + length old_value) s)
  splice-plain s i =
      rw
        (expand-plain (take_text i s) old_value (drop_text (i + length old_value) s) new_value
          plain)
        refl

  no_place :
      (s written : Text)
      → ((j : ℕ) → j ≤ length s → stands_at old_value s j ≡ false)
      → ¬ Replaces s written
  no_place s written f (b, rest, (e, only), w) =
      let (here, inside) = Occurs-stands_at old_value s b (rest, e) in
      absurd (ground (arith, here, f (length b) inside))

  place-before :
      (s written : Text) (i : ℕ)
      → stands_at old_value s i ≡ true
      → i ≤ length s
      → (r : Replaces s written) → (take_text i s ≡ r.0) × (i ≡ length (r.0))
  place-before s written i here l (b, rest, (e, only), w) =
      let same = only (take_text i s) (_, stands_at-split old_value s i here) in
      (same, sym (length-take_text i s l) ∙ ap length same)

  same_place-Replaces :
      (s written : Text) (i : ℕ)
      → IsFirst old_value s (some i)
      → IsLast old_value s (some i)
      → (some (splice old_value new_value s i) ≡ some written) ↔ Replaces s written
  same_place-Replaces s written i f l = (there, back)
    where
      there : some (splice old_value new_value s i) ≡ some written → Replaces s written
      there e = (
        take_text i s,
        drop_text (i + length old_value) s,
        same_place-IsOnly old_value s i f l,
        Option-inj (sym e) ∙ splice-plain s i,
      )

      back : Replaces s written → some (splice old_value new_value s i) ≡ some written
      back r =
          let (b, rest, (e, only), w) = r in
          let (same, _) = place-before s written i f.0 f.1 r in
          let tail : rest ≡ drop_text (i + length old_value) s =
            rest-eq b old_value rest (drop_text (i + length old_value) s) (
              sym e
              ∙ stands_at-split old_value s i f.0
              ∙ ap (λ x. x ++ (old_value ++ drop_text (i + length old_value) s)) same) in
          ap (λ x. some x)
            (splice-plain s i ∙ sym (w ∙ ap₂ (λ x y. x ++ (new_value ++ y)) (sym same) tail))

  replace_between-Replaces :
      (s written : Text) (first last : Option ℕ)
      → IsFirst old_value s first
      → IsLast old_value s last
      → (replace_between old_value new_value s first last ≡ some written) ↔ Replaces s written
  replace_between-Replaces s written none last f l = (λ e. cc, λ r. absurd (no_place s written f r))
  replace_between-Replaces s written (some i) none f l =
      (λ e. cc, λ r. absurd (no_place s written l r))
  replace_between-Replaces s written (some i) (some j) f l = elim (Bool-cases (i == j)) [
    | inl same ↦
        let here : j ≡ i = ground arith in
        rw same
          (same_place-Replaces s written i f (subst (λ n. IsLast old_value s (some n)) here l))
    | inr apart ↦ rw apart (
      λ e. cc,
      λ r.
          absurd (
            ground (arith, place-before s written i f.0 f.1 r, place-before s written j l.0 l.1 r)),
    )
  ]

  -- For a new value without `$`, `replaceExact` finds what to write exactly if the old value occurs
  -- once in the file, overlapping occurrences counted; it then writes what was before it, the new
  -- value, and what was after it. Otherwise it throws.
  pub replaced-Replaces :
      (contents written : Text)
      → (replaced old_value new_value contents ≡ some written) ↔ Replaces contents written
  unfolding replaced
  replaced-Replaces contents written =
      replace_between-Replaces contents written _ _ (index_of_text-IsFirst old_value contents)
        (last_index_of_text-IsLast old_value contents)
