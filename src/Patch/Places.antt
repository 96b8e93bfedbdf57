-- ===== src/Patch/Places.antt =====
-- enhancements/0001-zigbee-ember/apply.mjs: the places of a text in another, as `indexOf` and
-- `lastIndexOf` find them.

use homey_shs_enhanced.Patch.{
  last_place, last_index_of_text, map_index, index_of_text, take_text, drop_text,
}
use homey_shs_enhanced.Prelude.{
  length-append, sym, ◌+◌, ◌∙◌, Bool, Option, zero, suc, false, none, ◌<◌, ap, ==-refl, Bool-cases,
  arith, length, eq_exact, ℕ, starts_by, Text, [], refl, true, some, inl, inr, ◌∷◌, ◌++◌, ◌≤◌, ◌≡◌,
}

pub starts_by-split : (p s : Text) → starts_by eq_exact p s ≡ true → s ≡ p ++ drop_text (length p) s
unfolding starts_by
starts_by-split [] s h = refl
starts_by-split (a ∷ p) [] h = cc
starts_by-split (a ∷ p) (b ∷ s) h = ground (arith, h, starts_by-split p s)

pub starts_by-append : (p s : Text) → starts_by eq_exact p (p ++ s) ≡ true
unfolding starts_by
starts_by-append [] s = refl
starts_by-append (a ∷ p) s = ground (arith, ==-refl a, starts_by-append p s)

pub drop_text-append : (b s : Text) → drop_text (length b) (b ++ s) ≡ s
drop_text-append [] s = refl
drop_text-append (c ∷ b) s = drop_text-append b s

pub take_text-append : (b s : Text) → take_text (length b) (b ++ s) ≡ b
take_text-append [] s = refl
take_text-append (c ∷ b) s = ap (λ x. c ∷ x) (take_text-append b s)

-- `p` stands in `s` after `b`.
abbrev pub Occurs : Text → Text → Text → Type 0
Occurs p s b = (rest : Text) × (s ≡ b ++ (p ++ rest))

-- `p` begins at place `i` of `s`.
abbrev pub stands_at : Text → Text → ℕ → Bool
stands_at p s i = starts_by eq_exact p (drop_text i s)

-- What `indexOf` and `lastIndexOf` find.
abbrev pub IsFirst : Text → Text → Option ℕ → Type 0
IsFirst p s none = (j : ℕ) → j ≤ length s → stands_at p s j ≡ false
IsFirst p s (some i) =
    (stands_at p s i ≡ true) × (i ≤ length s) × ((j : ℕ) → j < i → stands_at p s j ≡ false)

abbrev pub IsLast : Text → Text → Option ℕ → Type 0
IsLast p s none = (j : ℕ) → j ≤ length s → stands_at p s j ≡ false
IsLast p s (some i) =
    (stands_at p s i ≡ true)
    × (i ≤ length s)
    × ((j : ℕ) → i < j → j ≤ length s → stands_at p s j ≡ false)

pub map_index-IsFirst :
    (p s : Text) (c : ℕ) (o : Option ℕ)
    → starts_by eq_exact p (c ∷ s) ≡ false
    → IsFirst p s o
    → IsFirst p (c ∷ s) (map_index o)
map_index-IsFirst p s c none h f = λ j l. at_none j l
  where
    at_none : (j : ℕ) → j ≤ suc (length s) → stands_at p (c ∷ s) j ≡ false
    at_none zero l = h
    at_none (suc j) l = f j (omega arith)
map_index-IsFirst p s c (some i) h (found, l, f) = (found, omega arith, at_some)
  where
    at_some : (j : ℕ) → j < suc i → stands_at p (c ∷ s) j ≡ false
    at_some zero l = h
    at_some (suc j) l = f j (omega arith)

pub only_place :
    (p : Text) → starts_by eq_exact p [] ≡ false → (j : ℕ) → j ≤ 0 → stands_at p [] j ≡ false
only_place p h zero l = h
only_place p h (suc j) l = h

pub index_of_text-IsFirst : (p s : Text) → IsFirst p s (index_of_text p s)
index_of_text-IsFirst p [] = elim (Bool-cases (starts_by eq_exact p [])) [
  | inl here ↦ rw here (here, omega arith, λ j l. absurd (omega arith))
  | inr there ↦ rw there (only_place p there)
]
index_of_text-IsFirst p (c ∷ s) = elim (Bool-cases (starts_by eq_exact p (c ∷ s))) [
  | inl here ↦ rw here (here, omega arith, λ j l. absurd (omega arith))
  | inr there ↦
      rw there (map_index-IsFirst p s c (index_of_text p s) there (index_of_text-IsFirst p s))
]

pub last_place-IsLast :
    (p s : Text) (c : ℕ) (o : Option ℕ)
    → IsLast p s o
    → IsLast p (c ∷ s) (last_place (starts_by eq_exact p (c ∷ s)) o)
last_place-IsLast p s c (some i) (found, l, f) = (found, omega arith, later)
  where
    later : (j : ℕ) → suc i < j → j ≤ suc (length s) → stands_at p (c ∷ s) j ≡ false
    later zero m l = absurd (omega arith)
    later (suc j) m l = f j (omega arith) (omega arith)
last_place-IsLast p s c none f = elim (Bool-cases (starts_by eq_exact p (c ∷ s))) [
  | inl here ↦ rw here (here, omega arith, later)
  | inr there ↦ rw there (at_none there)
]
  where
    later : (j : ℕ) → 0 < j → j ≤ suc (length s) → stands_at p (c ∷ s) j ≡ false
    later zero m l = absurd (omega arith)
    later (suc j) m l = f j (omega arith)

    at_none :
        starts_by eq_exact p (c ∷ s) ≡ false
        → (j : ℕ) → j ≤ suc (length s)
        → stands_at p (c ∷ s) j ≡ false
    at_none h zero l = h
    at_none h (suc j) l = f j (omega arith)

pub last_index_of_text-IsLast : (p s : Text) → IsLast p s (last_index_of_text p s)
last_index_of_text-IsLast p [] = elim (Bool-cases (starts_by eq_exact p [])) [
  | inl here ↦ rw here (here, omega arith, λ j m l. absurd (omega arith))
  | inr there ↦ rw there (only_place p there)
]
last_index_of_text-IsLast p (c ∷ s) =
    last_place-IsLast p s c (last_index_of_text p s) (last_index_of_text-IsLast p s)

pub take-drop : (i : ℕ) (s : Text) → s ≡ take_text i s ++ drop_text i s
take-drop zero s = refl
take-drop (suc i) [] = refl
take-drop (suc i) (c ∷ s) = ap (λ x. c ∷ x) (take-drop i s)

pub drop_text-nil : (i : ℕ) → drop_text i [] ≡ []
drop_text-nil zero = refl
drop_text-nil (suc i) = refl

pub drop_text-drop : (i j : ℕ) (s : Text) → drop_text j (drop_text i s) ≡ drop_text (i + j) s
drop_text-drop zero j s = ap (λ n. drop_text n s) (omega arith)
drop_text-drop (suc i) j [] = drop_text-nil j ∙ sym (drop_text-nil (suc i + j))
drop_text-drop (suc i) j (c ∷ s) =
    let sum : suc (i + j) ≡ suc i + j = omega arith in
    drop_text-drop i j s ∙ ap (λ n. drop_text n (c ∷ s)) sum

pub length-take_text : (i : ℕ) (s : Text) → i ≤ length s → length (take_text i s) ≡ i
length-take_text zero s l = refl
length-take_text (suc i) [] l = absurd (omega arith)
length-take_text (suc i) (c ∷ s) l = ap suc (length-take_text i s (omega arith))

-- A place where the text begins is an occurrence, and the other way round.
pub stands_at-split :
    (p s : Text) (i : ℕ)
    → stands_at p s i ≡ true
    → s ≡ take_text i s ++ (p ++ drop_text (i + length p) s)
stands_at-split p s i h =
    take-drop i s
    ∙ ap (λ x. take_text i s ++ x)
        (starts_by-split p (drop_text i s) h ∙ ap (λ x. p ++ x) (drop_text-drop i (length p) s))

pub Occurs-stands_at :
    (p s b : Text) → Occurs p s b → (stands_at p s (length b) ≡ true) × (length b ≤ length s)
Occurs-stands_at p s b (rest, e) = (
  rw e (rw (drop_text-append b (p ++ rest)) (starts_by-append p rest)),
  rw e (omega (arith, length-append b (p ++ rest))),
)

pub Occurs-before : (p s b : Text) → Occurs p s b → b ≡ take_text (length b) s
Occurs-before p s b (rest, e) = rw e (sym (take_text-append b (p ++ rest)))
