-- ===== src/EventQueues/Kernel.antt =====
-- The ring of kernel_rs/src/events.rs as a list of at most 255 events.
use agentic_os.Base.{
  ℕ, suc, ◌+◌, ◌-◌, ◌%◌, ◌<◌, ◌≡◌, ◌≢◌, refl, sym, ap, ◌∙◌, ◌⊎◌, List, [], ◌∷◌, ◌++◌, Option, none,
  some, inl, inr, Bool-cases, length, length-set, get_or, set, leb, ◌==◌, if◌then◌else◌, arith,
}
use agentic_os.Base.Ring.{
  IsModulus, ring_list, length-ring_list, ring_list_mod, ring_list-behind, ring_list-snoc,
  ring_list-uncons,
}
use agentic_os.EventQueues.{RingBuffer, Event, capacity, push, pop, empty_ring}

slot_mod : IsModulus capacity
slot_mod = record {
  below = λ h. omega arith;
  apart = λ h k lt e. omega arith;
  next = λ h h' e. omega arith;
}

pub record IsValid (q : RingBuffer) : Type 0 where
  pub slots_size : length q.slots ≡ capacity
  pub head_in : q.head < capacity
  pub tail_in : q.tail < capacity

abbrev listed : List (Option Event) → ℕ → ℕ → List (Option Event)
listed = ring_list none capacity

-- The slots that wait, oldest first.
abbrev pub waiting : RingBuffer → List (Option Event)
waiting q = listed q.slots q.tail ((q.head + capacity - q.tail) % capacity)

length-waiting : (q : RingBuffer) → length (waiting q) ≡ (q.head + capacity - q.tail) % capacity
length-waiting q = length-ring_list none capacity slot_mod q.slots q.tail _

pub empty_ring-IsValid : IsValid empty_ring × (waiting empty_ring ≡ [])
empty_ring-IsValid = (omega arith, refl)

push-IsValid : (q : RingBuffer) (e : Event) → IsValid q → IsValid (push q e)
unfolding push
push-IsValid q e v =
    ground (arith, length-set q.slots q.head (some e), v.slots_size, v.tail_in, v.head_in)

pop-IsValid : (q : RingBuffer) → IsValid q → IsValid (pop q).0
unfolding pop
pop-IsValid q v = ground (arith, length-set q.slots q.tail none, v.slots_size, v.tail_in, v.head_in)

-- What a bounded list of 255 events does with a new one.
abbrev pub pushed : List (Option Event) → Event → List (Option Event)
pushed q e = if leb 255 (length q) then q else q ++ some e ∷ []

pushed_room : (q : List (Option Event)) (e : Event) → length q < 255 → pushed q e ≡ q ++ some e ∷ []
pushed_room q e h = ground arith

-- From a valid ring, a new event waits behind the others, and is dropped if 255 wait. The ring
-- stays valid.
pub push_lem :
    (q : RingBuffer) (e : Event)
    → IsValid q
    → IsValid (push q e) × (waiting (push q e) ≡ pushed (waiting q) e)
unfolding push
push_lem q e v = (
  push-IsValid q e v,
  elim (Bool-cases ((q.head + 1) % capacity == q.tail)) [
    | inl full ↦ rw full (ground (arith, length-waiting q, v.head_in, v.tail_in))
    | inr room ↦ rw room (
        ap (listed (set q.slots q.head (some e)) q.tail)
          {y = suc ((q.head + capacity - q.tail) % capacity)} (ground (arith, v.head_in, v.tail_in))
        ∙ ring_list-snoc none capacity slot_mod q.slots q.tail
            ((q.head + capacity - q.tail) % capacity) q.head (some e) (omega (arith, v.slots_size))
            (omega arith) (ground (arith, v.head_in, v.tail_in))
        ∙ sym (pushed_room (waiting q) e (ground (arith, length-waiting q, v.head_in, v.tail_in))))
  ],
)

first_slot :
    (q : RingBuffer)
    → IsValid q
    → q.tail ≢ q.head
    → waiting q
      ≡ get_or q.slots q.tail none
        ∷ listed
            (set q.slots q.tail none)
            ((q.tail + 1) % capacity)
            ((q.head + capacity - (q.tail + 1) % capacity) % capacity)
first_slot q v apart =
    ring_list-uncons none capacity slot_mod q.slots q.tail _ (ground (arith, v.head_in, v.tail_in))
    ∙ λ i. get_or q.slots (slot i) none ∷ rest i
  where
    slot : q.tail % capacity ≡ q.tail
    slot = omega (arith, v.tail_in)

    count :
        (q.head + capacity - q.tail) % capacity - 1
        ≡ (q.head + capacity - (q.tail + 1) % capacity) % capacity
    count = ground (arith, v.head_in, v.tail_in)

    rest :
        listed q.slots (q.tail + 1) ((q.head + capacity - q.tail) % capacity - 1)
        ≡ listed
            (set q.slots q.tail none)
            ((q.tail + 1) % capacity)
            ((q.head + capacity - (q.tail + 1) % capacity) % capacity)
    rest =
        sym (
          ring_list-behind none capacity slot_mod q.slots q.tail 0 (q.tail + 1) _ none refl
            (ground (arith, v.head_in, v.tail_in)))
        ∙ (λ i. listed (set q.slots (slot i) none) (q.tail + 1) (count i))
        ∙ ring_list_mod none capacity slot_mod (set q.slots q.tail none) (q.tail + 1)
            ((q.tail + 1) % capacity) _ (omega arith)

-- From a valid ring, the slot of the oldest event is handed out, if one waits, and the others wait
-- on; from an empty one, nothing is. The ring stays valid.
pub pop_lem :
    (q : RingBuffer)
    → IsValid q
    → let (after, out) = pop q in
      IsValid after
      × (((waiting q ≡ []) × (out ≡ none) × (after ≡ q)) ⊎ (waiting q ≡ out ∷ waiting after))
unfolding pop
pop_lem q v = (
  pop-IsValid q v,
  elim (Bool-cases (q.tail == q.head)) [
    | inl same ↦ rw same (inl (no_events q (ground (arith, v.head_in)), refl, refl))
    | inr apart ↦ rw apart (inr (first_slot q v (ground arith)))
  ],
)
  where
    no_events : (q : RingBuffer) → (q.head + capacity - q.tail) % capacity ≡ 0 → waiting q ≡ []
    no_events q h = rw h refl
