-- ===== src/FileSystem/Parts.antt =====
-- The components of a path against the reading that keeps the word before each slash, for the path
-- iterator of kernel_common/src/ext2.rs.
use agentic_os.Base.{
  ℕ, zero, suc, ◌≤◌, List, [], ◌∷◌, ◌++◌, ◌≡◌, refl, sym, ap, ◌∙◌, subst, true, false, Bool-cases,
  inl, inr, Option, none, some, if◌then◌else◌, length, arith,
}
use mathlib.Core.List.{reverse, reverse-cons, reverse-reverse, append_assoc, append-nil}
use agentic_os.FileSystem.Paths.{
  is_slash, trim_start, trim, split_at_slash, path_components, next_component, components_from,
  components,
}

-- A word that is followed by others, left out when it is empty.
abbrev pub word_then : List ℕ → List (List ℕ) → List (List ℕ)
word_then [] rest = rest
word_then (c ∷ cs) rest = (c ∷ cs) ∷ rest

-- The slash-free, non-empty parts of a path, in order, after the start of a word.
abbrev pub parts : List ℕ → List ℕ → List (List ℕ)
parts word [] = word_then word []
parts word (c ∷ cs) =
    let ended = parts [] cs in
    let longer = parts (word ++ c ∷ []) cs in if is_slash c then word_then word ended else longer

-- The parts after the first slash.
abbrev parts_after : Option (List ℕ) → List (List ℕ)
parts_after none = []
parts_after (some from_slash) = parts [] from_slash

-- A path that does not start with a slash.
abbrev pub IsClean : List ℕ → Type 0
IsClean [] = Unit
IsClean (c ∷ cs) = is_slash c ≡ false

pub parts-slash :
    (c : ℕ) (word cs : List ℕ)
    → is_slash c ≡ true
    → parts word (c ∷ cs) ≡ word_then word (parts [] cs)
parts-slash c word cs h = ground arith

pub parts-letter :
    (c : ℕ) (word cs : List ℕ)
    → is_slash c ≡ false
    → parts word (c ∷ cs) ≡ parts (word ++ c ∷ []) cs
parts-letter c word cs h = ground arith

-- Leading slashes end no word.
parts-trim_start : (cs : List ℕ) → parts [] (trim_start cs) ≡ parts [] cs
parts-trim_start [] = refl
parts-trim_start (c ∷ cs) = ground (arith, parts-trim_start cs)

-- A slash at the end ends the last word.
parts-last_slash :
    (c : ℕ) (word cs : List ℕ) → is_slash c ≡ true → parts word (cs ++ c ∷ []) ≡ parts word cs
parts-last_slash c [] [] h = ground arith
parts-last_slash c (w ∷ ws) [] h = ground arith
parts-last_slash c word (d ∷ ds) h =
    ground (arith, parts-last_slash c [] ds h, parts-last_slash c (word ++ d ∷ []) ds h)

pub trim_start-IsClean : (cs : List ℕ) → IsClean (trim_start cs)
trim_start-IsClean [] = tt
trim_start-IsClean (c ∷ cs) = ground (arith, trim_start-IsClean cs)

trim_start-slash : (c : ℕ) (cs : List ℕ) → is_slash c ≡ true → trim_start (c ∷ cs) ≡ trim_start cs
trim_start-slash c cs h = ground arith

trim_start-letter : (c : ℕ) (cs : List ℕ) → is_slash c ≡ false → trim_start (c ∷ cs) ≡ c ∷ cs
trim_start-letter c cs h = ground arith

length-trim_start : (cs : List ℕ) → length (trim_start cs) ≤ length cs
length-trim_start [] = omega arith
length-trim_start (c ∷ cs) = ground (arith, length-trim_start cs)

-- Slashes at the end of a path, first ones of its reverse, end no word.
parts-trim_end : (word cs : List ℕ) → parts word (reverse (trim_start cs)) ≡ parts word (reverse cs)
parts-trim_end word [] = refl
parts-trim_end word (c ∷ cs) = elim (Bool-cases (is_slash c)) [
  | inl h ↦
      ap (λ (r : List ℕ). parts word (reverse r)) (trim_start-slash c cs h)
      ∙ parts-trim_end word cs
      ∙ sym (parts-last_slash c word (reverse cs) h)
      ∙ sym (ap (parts word) (reverse-cons c cs))
  | inr h ↦ ap (λ (r : List ℕ). parts word (reverse r)) (trim_start-letter c cs h)
]

trim_end-join :
    (c : ℕ) (cs s : List ℕ)
    → is_slash c ≡ true
    → reverse (trim_start cs) ++ s ≡ reverse cs
    → reverse (trim_start (c ∷ cs)) ++ (s ++ c ∷ []) ≡ reverse (c ∷ cs)
trim_end-join c cs s h joined =
    ap (λ (r : List ℕ). reverse r ++ (s ++ c ∷ [])) (trim_start-slash c cs h)
    ∙ sym (append_assoc (reverse (trim_start cs)) s (c ∷ []))
    ∙ ap (λ (r : List ℕ). r ++ c ∷ []) joined
    ∙ sym (reverse-cons c cs)

-- What is trimmed at the end.
pub trim_end-rest : (cs : List ℕ) → (s : List ℕ) × (reverse (trim_start cs) ++ s ≡ reverse cs)
trim_end-rest [] = ([], refl)
trim_end-rest (c ∷ cs) = elim (Bool-cases (is_slash c)) [
  | inl h ↦ (
    (trim_end-rest cs).0 ++ c ∷ [],
    trim_end-join c cs (trim_end-rest cs).0 h (trim_end-rest cs).1,
  )
  | inr h ↦ (
    [],
    append-nil (reverse (trim_start (c ∷ cs)))
        ∙ ap (λ (r : List ℕ). reverse r) (trim_start-letter c cs h),
  )
]

append-IsClean : (cs s : List ℕ) → IsClean (cs ++ s) → IsClean cs
append-IsClean [] s h = tt
append-IsClean (c ∷ cs) s h = h

trim-IsClean : (path : List ℕ) → IsClean (trim path)
unfolding trim
trim-IsClean path =
    let start = trim_start path in
    let (s, joined) = trim_end-rest (reverse (trim_start path)) in
    append-IsClean (trim path) s
      (subst IsClean (sym (joined ∙ reverse-reverse (trim_start path))) (trim_start-IsClean path))

pub parts-trim : (path : List ℕ) → parts [] (trim path) ≡ parts [] path
unfolding trim
parts-trim path =
    parts-trim_end [] (reverse (trim_start path))
    ∙ ap (parts []) (reverse-reverse (trim_start path))
    ∙ parts-trim_start path

pub split_at_slash-slash :
    (c : ℕ) (cs : List ℕ) → is_slash c ≡ true → split_at_slash (c ∷ cs) ≡ ([], some (c ∷ cs))
split_at_slash-slash c cs h = ground arith

pub split_at_slash-letter :
    (c : ℕ) (cs : List ℕ)
    → is_slash c ≡ false
    → split_at_slash (c ∷ cs) ≡ (c ∷ (split_at_slash cs).0, (split_at_slash cs).1)
split_at_slash-letter c cs h = ground arith

-- The parts of a split path: the word goes on up to the slash.
abbrev parts_of_split : List ℕ → List ℕ × Option (List ℕ) → List (List ℕ)
parts_of_split word (seg, rest) = word_then (word ++ seg) (parts_after rest)

parts-split_at_slash : (word cs : List ℕ) → parts word cs ≡ parts_of_split word (split_at_slash cs)
parts-split_at_slash word [] = ap (λ (w : List ℕ). word_then w []) (sym (append-nil word))
parts-split_at_slash word (c ∷ cs) = elim (Bool-cases (is_slash c)) [
  | inl h ↦
      parts-slash c word cs h
      ∙ sym (ap (word_then word) (parts-slash c [] cs h))
      ∙ ap (λ (w : List ℕ). word_then w (parts [] (c ∷ cs))) (sym (append-nil word))
      ∙ sym (ap (parts_of_split word) (split_at_slash-slash c cs h))
  | inr h ↦
      parts-letter c word cs h
      ∙ parts-split_at_slash (word ++ c ∷ []) cs
      ∙ ap (λ (w : List ℕ). word_then w (parts_after (split_at_slash cs).1))
          (append_assoc word (c ∷ []) (split_at_slash cs).0)
      ∙ sym (ap (parts_of_split word) (split_at_slash-letter c cs h))
]

-- The remainder that the iterator keeps.
abbrev remainder_of : Option (List ℕ) → List ℕ
remainder_of none = []
remainder_of (some from_slash) = trim_start from_slash

remainder_of-IsClean : (rest : Option (List ℕ)) → IsClean (remainder_of rest)
remainder_of-IsClean none = tt
remainder_of-IsClean (some from_slash) = trim_start-IsClean from_slash

parts-remainder_of : (rest : Option (List ℕ)) → parts [] (remainder_of rest) ≡ parts_after rest
parts-remainder_of none = refl
parts-remainder_of (some from_slash) = parts-trim_start from_slash

length-remainder_of : (cs : List ℕ) → length (remainder_of (split_at_slash cs).1) ≤ length cs
length-remainder_of [] = omega arith
length-remainder_of (c ∷ cs) = elim (Bool-cases (is_slash c)) [
  | inl h ↦
      subst (λ s. length (remainder_of s.1) ≤ suc (length cs)) (sym (split_at_slash-slash c cs h))
        (length-trim_start (c ∷ cs))
  | inr h ↦
      subst (λ s. length (remainder_of s.1) ≤ suc (length cs)) (sym (split_at_slash-letter c cs h))
        (omega (arith, length-remainder_of cs))
]

-- `next` on what it read.
abbrev component_of : List ℕ × Option (List ℕ) → Option (List ℕ × List ℕ)
component_of (seg, none) = some (seg, [])
component_of (seg, some from_slash) = some (seg, trim_start from_slash)

component_of_lem :
    (seg : List ℕ) (rest : Option (List ℕ))
    → component_of (seg, rest) ≡ some (seg, remainder_of rest)
component_of_lem seg none = refl
component_of_lem seg (some from_slash) = refl

read-component_of :
    (p : List ℕ × Option (List ℕ))
    → (elim p.1 [ none ↦ some (p.0, []) | some from_slash ↦ some (p.0, trim_start from_slash) ])
      ≡ component_of p
read-component_of (seg, none) = refl
read-component_of (seg, some from_slash) = refl

next_component_lem :
    (c : ℕ) (cs : List ℕ) → next_component (c ∷ cs) ≡ component_of (split_at_slash (c ∷ cs))
unfolding next_component
next_component_lem c cs = read-component_of (split_at_slash (c ∷ cs))

components_from-next :
    (fuel : ℕ) (r seg r' : List ℕ)
    → next_component r ≡ some (seg, r')
    → components_from (suc fuel) r ≡ seg ∷ components_from fuel r'
unfolding components_from
components_from-next fuel r seg r' h =
    ap
      (λ (o : Option (List ℕ × List ℕ)). elim o [
        | none ↦ []
        | some (s, r'') ↦ s ∷ components_from fuel r''
      ])
      h

components_from-nil : (fuel : ℕ) → components_from fuel [] ≡ []
unfolding components_from next_component
components_from-nil zero = refl
components_from-nil (suc fuel) = refl

components_from-parts :
    (fuel : ℕ) (r : List ℕ) → IsClean r → length r ≤ fuel → components_from fuel r ≡ parts [] r
components_from-parts fuel [] clean enough = components_from-nil fuel
components_from-parts zero (c ∷ cs) clean enough = ground arith
components_from-parts (suc fuel) (c ∷ cs) clean enough =
    let (seg, rest) = split_at_slash cs in
    components_from-next fuel (c ∷ cs) (c ∷ seg) (remainder_of rest) (
      next_component_lem c cs
      ∙ ap component_of (split_at_slash-letter c cs clean)
      ∙ component_of_lem (c ∷ seg) rest)
    ∙ ap (λ (l : List (List ℕ)). (c ∷ seg) ∷ l)
        (components_from-parts fuel (remainder_of rest) (remainder_of-IsClean rest)
            (omega (arith, length-remainder_of cs))
          ∙ parts-remainder_of rest)
    ∙ sym (parts-letter c [] cs clean ∙ parts-split_at_slash (c ∷ []) cs)

-- The iterator over the components of a path gives exactly its non-empty parts between slashes, in
-- order, whatever slashes the path begins with, ends with or repeats.
pub components_lem : (path : List ℕ) → components path ≡ parts [] path
unfolding components path_components
components_lem path =
    components_from-parts (length (trim path)) (trim path) (trim-IsClean path) (omega arith)
    ∙ parts-trim path
