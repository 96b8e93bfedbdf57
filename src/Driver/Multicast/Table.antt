-- ===== src/Driver/Multicast/Table.antt =====
-- enhancements/0001-zigbee-ember/src/homey-ember.cjs: the list operations of the multicast table.
use homey_shs_enhanced.Driver.Multicast.{last_or, drop_last, includes, index_of}
use homey_shs_enhanced.Prelude.{
  subst, ap, set, get_elem?, arith, length, ℕ, List, [], refl, zero, suc, false, none, some, ◌-◌,
  ◌∷◌, ◌+◌, if◌then◌else◌, ◌==◌, ◌++◌, ◌≡◌, ◌<◌,
}

pub get_elem?-append_lt :
    (gs : List ℕ) (g i : ℕ) → i < length gs → get_elem? (gs ++ g ∷ []) i ≡ get_elem? gs i
get_elem?-append_lt [] g i h = elim h [ ]
get_elem?-append_lt (x ∷ gs) g zero h = refl
get_elem?-append_lt (x ∷ gs) g (suc i) h = get_elem?-append_lt gs g i (omega arith)

pub get_elem?-lt : (gs : List ℕ) (i g : ℕ) → get_elem? gs i ≡ some g → i < length gs
get_elem?-lt [] i g h = cc
get_elem?-lt (x ∷ gs) zero g h = omega arith
get_elem?-lt (x ∷ gs) (suc i) g h = omega (arith, get_elem?-lt gs i g h)

pub get_elem?-append_last : (gs : List ℕ) (g : ℕ) → get_elem? (gs ++ g ∷ []) (length gs) ≡ some g
get_elem?-append_last [] g = refl
get_elem?-append_last (x ∷ gs) g = get_elem?-append_last gs g

pub get_elem?-set :
    (gs : List ℕ) (i v j : ℕ)
    → i < length gs
    → get_elem? (set gs i v) j ≡ (if j == i then some v else get_elem? gs j)
get_elem?-set [] i v j h = elim h [ ]
get_elem?-set (x ∷ gs) zero v zero h = refl
get_elem?-set (x ∷ gs) zero v (suc j) h = ground arith
get_elem?-set (x ∷ gs) (suc i) v zero h = ground arith
get_elem?-set (x ∷ gs) (suc i) v (suc j) h = ground (arith, get_elem?-set gs i v j)

pub length-set : (gs : List ℕ) (i v : ℕ) → length (set gs i v) ≡ length gs
length-set [] i v = refl
length-set (x ∷ gs) zero v = refl
length-set (x ∷ gs) (suc i) v = ap suc (length-set gs i v)

pub length-drop_last : (gs : List ℕ) → length (drop_last gs) ≡ length gs - 1
length-drop_last [] = omega arith
length-drop_last (g ∷ []) = omega arith
length-drop_last (g ∷ h ∷ gs) = omega (arith, length-drop_last (h ∷ gs))

pub get_elem?-drop_last :
    (gs : List ℕ) (i : ℕ) → i < length gs - 1 → get_elem? (drop_last gs) i ≡ get_elem? gs i
get_elem?-drop_last [] i h = absurd (omega arith)
get_elem?-drop_last (g ∷ []) i h = absurd (omega arith)
get_elem?-drop_last (g ∷ h ∷ gs) zero l = refl
get_elem?-drop_last (g ∷ h ∷ gs) (suc i) l = get_elem?-drop_last (h ∷ gs) i (omega arith)

pub get_elem?-last : (g : ℕ) (gs : List ℕ) → get_elem? (g ∷ gs) (length gs) ≡ some (last_or g gs)
get_elem?-last g [] = refl
get_elem?-last g (h ∷ gs) = get_elem?-last h gs

pub get_elem?-index_of :
    (gs : List ℕ) (group i : ℕ) → index_of gs group ≡ some i → get_elem? gs i ≡ some group
get_elem?-index_of [] group i h = cc
get_elem?-index_of (g ∷ gs) group zero h = ground arith
get_elem?-index_of (g ∷ gs) group (suc i) h = ground (arith, get_elem?-index_of gs group i)

-- How often a group stands in a list.
abbrev pub count : ℕ → List ℕ → ℕ
count a [] = 0
count a (g ∷ gs) = (if g == a then 1 else 0) + count a gs

pub count-append : (a : ℕ) (gs hs : List ℕ) → count a (gs ++ hs) ≡ count a gs + count a hs
count-append a [] hs = omega arith
count-append a (g ∷ gs) hs = omega (arith, count-append a gs hs)

pub count-includes : (a : ℕ) (gs : List ℕ) → includes gs a ≡ false → count a gs ≡ 0
count-includes a [] h = refl
count-includes a (g ∷ gs) h = ground (arith, count-includes a gs)

pub includes-count : (a : ℕ) (gs : List ℕ) → count a gs ≡ 0 → includes gs a ≡ false
includes-count a [] h = refl
includes-count a (g ∷ gs) h = ground (arith, includes-count a gs)

pub index_of-none : (gs : List ℕ) (a : ℕ) → index_of gs a ≡ none → count a gs ≡ 0
index_of-none [] a h = refl
index_of-none (g ∷ gs) a h = ground (arith, index_of-none gs a)

-- Overwriting an entry loses the old group and gains the new one.
pub count-set :
    (a : ℕ) (gs : List ℕ) (i old v : ℕ)
    → get_elem? gs i ≡ some old
    → count a (set gs i v) + (if old == a then 1 else 0) ≡ count a gs + (if v == a then 1 else 0)
count-set a [] i old v h = cc
count-set a (g ∷ gs) zero old v h = ground arith
count-set a (g ∷ gs) (suc i) old v h = omega (arith, count-set a gs i old v h)

pub count-drop_last :
    (a g : ℕ) (gs : List ℕ)
    → count a (drop_last (g ∷ gs)) + (if last_or g gs == a then 1 else 0) ≡ count a (g ∷ gs)
count-drop_last a g [] = omega arith
count-drop_last a g (h ∷ gs) = omega (arith, count-drop_last a h gs)

pub last_or-set :
    (d : ℕ) (gs : List ℕ) (i v : ℕ) → i + 1 < length gs → last_or d (set gs i v) ≡ last_or d gs
last_or-set d [] i v h = absurd (omega arith)
last_or-set d (g ∷ []) i v h = absurd (omega arith)
last_or-set d (g ∷ h ∷ gs) zero v l = refl
last_or-set d (g ∷ h ∷ gs) (suc i) v l = last_or-set g (h ∷ gs) i v (omega arith)

pub count-drop_last_pos :
    (a : ℕ) (gs : List ℕ)
    → 0 < length gs
    → count a (drop_last gs) + (if last_or 0 gs == a then 1 else 0) ≡ count a gs
count-drop_last_pos a [] pos = absurd (omega arith)
count-drop_last_pos a (g ∷ gs) pos = count-drop_last a g gs

pub last_or-eq : (gs : List ℕ) (g : ℕ) → get_elem? gs (length gs - 1) ≡ some g → last_or 0 gs ≡ g
last_or-eq [] g h = cc
last_or-eq (x ∷ gs) g h =
    let place : length (x ∷ gs) - 1 ≡ length gs = omega arith in
    let h' : get_elem? (x ∷ gs) (length gs) ≡ some g =
      subst (λ k. get_elem? (x ∷ gs) k ≡ some g) place h in
    cc (get_elem?-last x gs)
