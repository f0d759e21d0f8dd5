-- ===== src/FileSystem/Parents.antt =====
-- The parent and the last component of a path, for `split_parent_and_basename` of
-- kernel_common/src/ext2.rs.
use agentic_os.Base.{
  ℕ, List, [], ◌∷◌, ◌++◌, ◌≡◌, refl, sym, ap, ◌∙◌, subst, true, false, Bool-cases, inl, inr, Option,
  none, some,
}
use mathlib.Core.List.{
  reverse, reverse-cons, reverse-reverse, reverse-append, append_assoc, append-nil, nil≢cons,
}
use mathlib.Core.Bool.{true≢false}
use agentic_os.FileSystem.Paths.{
  is_slash, trim_start, trim, split_at_slash, split_parent_and_basename, components,
}
use agentic_os.FileSystem.Parts.{
  word_then, parts, IsClean, parts-slash, parts-letter, trim_start-IsClean, parts-trim,
  split_at_slash-slash, split_at_slash-letter, components_lem,
}

word_then-append :
    (word : List ℕ) (xs ys : List (List ℕ)) → word_then word (xs ++ ys) ≡ word_then word xs ++ ys
word_then-append [] xs ys = refl
word_then-append (w ∷ ws) xs ys = refl

-- A slash ends the word before it, and the rest is read on its own.
parts-middle_slash :
    (c : ℕ) (word xs ys : List ℕ)
    → is_slash c ≡ true
    → parts word (xs ++ c ∷ ys) ≡ parts word xs ++ parts [] ys
parts-middle_slash c word [] ys h = parts-slash c word ys h ∙ word_then-append word [] (parts [] ys)
parts-middle_slash c word (x ∷ xs) ys h = elim (Bool-cases (is_slash x)) [
  | inl s ↦
      parts-slash x word (xs ++ c ∷ ys) s
      ∙ ap (word_then word) (parts-middle_slash c [] xs ys h)
      ∙ word_then-append word (parts [] xs) (parts [] ys)
      ∙ ap (λ (l : List (List ℕ)). l ++ parts [] ys) (sym (parts-slash x word xs s))
  | inr s ↦
      parts-letter x word (xs ++ c ∷ ys) s
      ∙ parts-middle_slash c (word ++ x ∷ []) xs ys h
      ∙ ap (λ (l : List (List ℕ)). l ++ parts [] ys) (sym (parts-letter x word xs s))
]

abbrev HasNoSlash : List ℕ → Type 0
HasNoSlash [] = Unit
HasNoSlash (c ∷ cs) = (is_slash c ≡ false) × HasNoSlash cs

append-HasNoSlash : (xs ys : List ℕ) → HasNoSlash xs → HasNoSlash ys → HasNoSlash (xs ++ ys)
append-HasNoSlash [] ys h k = k
append-HasNoSlash (x ∷ xs) ys (h, hs) k = (h, append-HasNoSlash xs ys hs k)

reverse-HasNoSlash : (xs : List ℕ) → HasNoSlash xs → HasNoSlash (reverse xs)
reverse-HasNoSlash [] h = tt
reverse-HasNoSlash (x ∷ xs) (h, hs) =
    subst HasNoSlash (sym (reverse-cons x xs))
      (append-HasNoSlash (reverse xs) (x ∷ []) (reverse-HasNoSlash xs hs) (h, tt))

parts-HasNoSlash : (word xs : List ℕ) → HasNoSlash xs → parts word xs ≡ word_then (word ++ xs) []
parts-HasNoSlash word [] h = ap (λ (w : List ℕ). word_then w []) (sym (append-nil word))
parts-HasNoSlash word (x ∷ xs) (h, hs) =
    parts-letter x word xs h
    ∙ parts-HasNoSlash (word ++ x ∷ []) xs hs
    ∙ ap (λ (w : List ℕ). word_then w []) (append_assoc word (x ∷ []) xs)

-- A path and what it is split into.
abbrev IsSplit : List ℕ → List ℕ × Option (List ℕ) → Type 0
IsSplit cs (seg, none) = HasNoSlash seg × (cs ≡ seg)
IsSplit cs (seg, some []) = ⊥
IsSplit cs (seg, some (c ∷ rest)) = HasNoSlash seg × (is_slash c ≡ true) × (cs ≡ seg ++ c ∷ rest)

cons-IsSplit :
    (c : ℕ) (cs : List ℕ) (p : List ℕ × Option (List ℕ))
    → is_slash c ≡ false
    → IsSplit cs p
    → IsSplit (c ∷ cs) (c ∷ p.0, p.1)
cons-IsSplit c cs (seg, none) h (s, e) = ((h, s), ap (λ (l : List ℕ). c ∷ l) e)
cons-IsSplit c cs (seg, some []) h s = s
cons-IsSplit c cs (seg, some (d ∷ rest)) h (s, k, e) = ((h, s), k, ap (λ (l : List ℕ). c ∷ l) e)

split_at_slash-IsSplit : (cs : List ℕ) → IsSplit cs (split_at_slash cs)
split_at_slash-IsSplit [] = (tt, refl)
split_at_slash-IsSplit (c ∷ cs) = elim (Bool-cases (is_slash c)) [
  | inl h ↦ subst (IsSplit (c ∷ cs)) (sym (split_at_slash-slash c cs h)) (tt, h, refl)
  | inr h ↦
      subst (IsSplit (c ∷ cs)) (sym (split_at_slash-letter c cs h))
        (cons-IsSplit c cs (split_at_slash cs) h (split_at_slash-IsSplit cs))
]

-- The answer of `split_parent_and_basename` from the split of the reversed path.
abbrev parent_and_base : List ℕ → List ℕ × Option (List ℕ) → List ℕ × List ℕ
parent_and_base trimmed (leaf, none) = ([], trimmed)
parent_and_base trimmed (leaf, some []) = ([], trimmed)
parent_and_base trimmed (leaf, some (c ∷ parent)) = (reverse parent, reverse leaf)

read-parent_and_base :
    (trimmed : List ℕ) (p : List ℕ × Option (List ℕ))
    → (elim p.1 [
      | none ↦ ([], trimmed)
      | some [] ↦ ([], trimmed)
      | some (slash ∷ parent) ↦ (reverse parent, reverse p.0)
    ])
      ≡ parent_and_base trimmed p
read-parent_and_base trimmed (leaf, none) = refl
read-parent_and_base trimmed (leaf, some []) = refl
read-parent_and_base trimmed (leaf, some (c ∷ parent)) = refl

split_parent_lem :
    (path : List ℕ)
    → split_parent_and_basename path
      ≡ parent_and_base (trim path) (split_at_slash (reverse (trim path)))
unfolding split_parent_and_basename
split_parent_lem path = read-parent_and_base (trim path) (split_at_slash (reverse (trim path)))

-- The parts of the parent, then the base name, which is only empty when the path has no part.
abbrev IsParting : List ℕ → List ℕ × List ℕ → Type 0
IsParting path (parent, base) =
    (parts [] parent ++ word_then base [] ≡ parts [] path) × (base ≡ [] → parts [] path ≡ [])

reverse-flip : (xs ys : List ℕ) → reverse xs ≡ ys → xs ≡ reverse ys
reverse-flip xs ys h = sym (reverse-reverse xs) ∙ ap (λ (l : List ℕ). reverse l) h

reverse-around : (c : ℕ) (xs ys : List ℕ) → reverse (xs ++ c ∷ ys) ≡ reverse ys ++ c ∷ reverse xs
reverse-around c xs ys =
    reverse-append xs (c ∷ ys)
    ∙ ap (λ (l : List ℕ). l ++ reverse xs) (reverse-cons c ys)
    ∙ append_assoc (reverse ys) (c ∷ []) (reverse xs)

reverse-trim-IsClean : (path : List ℕ) → IsClean (reverse (trim path))
unfolding trim
reverse-trim-IsClean path =
    let end = reverse (trim_start path) in
    subst IsClean (sym (reverse-reverse (trim_start (reverse (trim_start path)))))
      (trim_start-IsClean (reverse (trim_start path)))

-- The parts of a path that is split at its last slash.
parts-last_split :
    (c : ℕ) (trimmed leaf parent : List ℕ)
    → HasNoSlash leaf
    → is_slash c ≡ true
    → reverse trimmed ≡ leaf ++ c ∷ parent
    → parts [] (reverse parent) ++ word_then (reverse leaf) [] ≡ parts [] trimmed
parts-last_split c trimmed leaf parent s h e =
    ap (λ (l : List (List ℕ)). parts [] (reverse parent) ++ l)
      (sym (parts-HasNoSlash [] (reverse leaf) (reverse-HasNoSlash leaf s)))
    ∙ sym (parts-middle_slash c [] (reverse parent) (reverse leaf) h)
    ∙ sym
        (ap (parts []) (reverse-flip trimmed (leaf ++ c ∷ parent) e ∙ reverse-around c leaf parent))

parent_and_base-IsParting :
    (trimmed : List ℕ) (p : List ℕ × Option (List ℕ))
    → IsClean (reverse trimmed)
    → IsSplit (reverse trimmed) p
    → IsParting trimmed (parent_and_base trimmed p)
parent_and_base-IsParting trimmed (leaf, none) clean (s, e) = (
  sym (
      parts-HasNoSlash [] trimmed
        (subst HasNoSlash (sym (reverse-flip trimmed leaf e)) (reverse-HasNoSlash leaf s))),
  λ z. ap (parts []) z,
)
parent_and_base-IsParting trimmed (leaf, some []) clean s = elim s [ ]
parent_and_base-IsParting trimmed ([], some (c ∷ parent)) clean (s, h, e) =
    elim (true≢false (sym h ∙ subst IsClean e clean)) [ ]
parent_and_base-IsParting trimmed (l ∷ leaf, some (c ∷ parent)) clean (s, h, e) = (
  parts-last_split c trimmed (l ∷ leaf) parent s h e,
  λ z. elim (nil≢cons (sym (reverse-flip (l ∷ leaf) [] z))) [ ],
)

split_parent-IsParting : (path : List ℕ) → IsParting (trim path) (split_parent_and_basename path)
split_parent-IsParting path = subst (IsParting (trim path)) (sym (split_parent_lem path)) (
    parent_and_base-IsParting (trim path) (split_at_slash (reverse (trim path)))
      (reverse-trim-IsClean path) (split_at_slash-IsSplit (reverse (trim path))))

-- The components of the parent of a path, followed by its base name, are the components of the path;
-- the base name is empty only for a path without components.
pub split_parent_and_basename_lem :
    (path : List ℕ)
    → (components (split_parent_and_basename path).0
          ++ word_then (split_parent_and_basename path).1 []
        ≡ components path)
      × ((split_parent_and_basename path).1 ≡ [] → components path ≡ [])
split_parent_and_basename_lem path =
    let (same, base_empty) = split_parent-IsParting path in
    (
      ap (λ (l : List (List ℕ)). l ++ word_then (split_parent_and_basename path).1 [])
            (components_lem (split_parent_and_basename path).0)
          ∙ same
          ∙ parts-trim path
          ∙ sym (components_lem path),
      λ z. components_lem path ∙ sym (parts-trim path) ∙ base_empty z,
    )
