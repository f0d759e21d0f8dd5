-- ===== src/AuthorityGraph/Envelope.antt =====
-- The envelopes of kernel_common/src/discovered_envelope.rs.
use agentic_os.Base.{
  ℕ, ◌≤◌, ◌<◌, ◌≡◌, refl, ap, ◌∙◌, List, [], ◌∷◌, ◌++◌, Bool, true, false, not, ◌&&◌, ◌||◌, arith,
  inl, inr, Bool-cases, ◌==◌, leb, length, length-append,
}
use agentic_os.AuthorityGraph.{already_seen, discover_from, discover_envelope}

already_seen-append :
    (xs : List ℕ) (a b : ℕ) → already_seen (xs ++ a ∷ []) b ≡ (already_seen xs b || a == b)
unfolding already_seen
already_seen-append [] a b = ground arith
already_seen-append (x ∷ xs) a b = ground (arith, already_seen-append xs a b)

-- No address stands twice in the list.
unfoldable pub all_different : List ℕ → Bool
all_different [] = true
all_different (x ∷ xs) = not (already_seen xs x) && all_different xs

all_different-append :
    (xs : List ℕ) (a : ℕ)
    → all_different xs ≡ true
    → already_seen xs a ≡ false
    → all_different (xs ++ a ∷ []) ≡ true
unfolding all_different already_seen
all_different-append [] a d n = refl
all_different-append (x ∷ xs) a d n =
    ground (arith, all_different-append xs a, already_seen-append xs a x)

already_seen-same :
    (xs : List ℕ) (a b : ℕ) → already_seen xs a ≡ true → (a == b) ≡ true → already_seen xs b ≡ true
already_seen-same xs a b h e = ap (already_seen xs) (ground arith) ∙ h

-- What `discover_from` makes of `written` and `attempts`.
abbrev Discovered : List ℕ → ℕ → List ℕ → List ℕ → Type 0
Discovered written room attempts r =
    (all_different r ≡ true)
    × (length r ≤ room)
    × ((a : ℕ)
        → already_seen r a ≡ true
        → (already_seen written a || already_seen attempts a) ≡ true)
    × (length r < room
        → (a : ℕ) → (already_seen written a || already_seen attempts a) ≡ true
        → already_seen r a ≡ true)

discover_from-Discovered :
    (written : List ℕ) (room : ℕ) (attempts : List ℕ)
    → all_different written ≡ true
    → length written ≤ room
    → Discovered written room attempts (discover_from written room attempts)
unfolding discover_from already_seen
discover_from-Discovered written room [] d s =
    (d, s, λ a h. ground arith, λ short a h. ground arith)
discover_from-Discovered written room (x ∷ attempts) d s =
    elim (Bool-cases (leb room (length written))) [
      | inl full ↦ rw full (d, s, λ a h. ground arith, λ short a h. ground arith)
      | inr space ↦ rw space (elim (Bool-cases (already_seen written x)) [
        | inl seen ↦
            let (d', s', f, c) = discover_from-Discovered written room attempts d s in
            rw seen (
              d',
              s',
              λ a h. ground (arith, f a),
              λ short a h. c short a (ground (arith, already_seen-same written x a seen)),
            )
        | inr new ↦
            let (d', s', f, c) =
              discover_from-Discovered (written ++ x ∷ []) room attempts
                (all_different-append written x d new)
                (ground (arith, length-append written (x ∷ []))) in
            rw new (
              d',
              s',
              λ a h. ground (arith, f a, already_seen-append written x a),
              λ short a h. ground (arith, c short a, already_seen-append written x a),
            )
      ])
    ]

-- The envelope has no address twice, has at most `room` entries and holds only addresses that
-- were attempted; if it does not fill the room, it holds every address that was attempted.
pub discover_envelope_lem :
    (attempts : List ℕ) (room : ℕ)
    → let envelope = discover_envelope attempts room in
      (all_different envelope ≡ true)
      × (length envelope ≤ room)
      × ((a : ℕ) → already_seen envelope a ≡ true → already_seen attempts a ≡ true)
      × (length envelope < room
          → (a : ℕ) → already_seen attempts a ≡ true
          → already_seen envelope a ≡ true)
unfolding discover_envelope already_seen all_different
discover_envelope_lem attempts room = discover_from-Discovered [] room attempts refl (omega arith)
