-- ===== src/Capability/RightsMask.antt =====
-- `Rights` of kernel_rs/src/capability.rs, a u32 bit mask, and the agent policy of
-- kernel_rs/src/policy.rs.
use agentic_os.Base.{
  ℕ, ◌^◌, ◌≡◌, sym, ◌∙◌, ap, Bool, true, false, ◌==◌, ==_iff, bit_and, bit_or, Bool-cases, inl, inr,
}
use agentic_os.Base.Bits.{bit_and_assoc, bit_and_self, bit_and_comm}

abbrev pub Rights : Type 0
Rights = ℕ

abbrev pub none_right : Rights
none_right = 0

abbrev pub send_right : Rights
send_right = 2 ^ 0

abbrev pub receive_right : Rights
receive_right = 2 ^ 1

abbrev pub grant_right : Rights
grant_right = 2 ^ 2

abbrev pub revoke_right : Rights
revoke_right = 2 ^ 3

abbrev pub map_right : Rights
map_right = 2 ^ 4

abbrev pub wait_right : Rights
wait_right = 2 ^ 5

abbrev pub port_io_right : Rights
port_io_right = 2 ^ 6

abbrev pub introspect_right : Rights
introspect_right = 2 ^ 7

abbrev pub audit_query_right : Rights
audit_query_right = 2 ^ 8

abbrev pub read_right : Rights
read_right = 2 ^ 9

abbrev pub write_right : Rights
write_right = 2 ^ 10

abbrev pub encrypt_right : Rights
encrypt_right = 2 ^ 11

abbrev pub decrypt_right : Rights
decrypt_right = 2 ^ 12

abbrev pub session_switch_right : Rights
session_switch_right = 2 ^ 13

abbrev pub exec_right : Rights
exec_right = 2 ^ 14

unfoldable pub contains : Rights → Rights → Bool
contains a b = bit_and a b == b

unfoldable pub intersect : Rights → Rights → Rights
intersect a b = bit_and a b

unfoldable pub union : Rights → Rights → Rights
union a b = bit_or a b

-- `policy::AGENT_MAX_RIGHTS`
unfoldable pub agent_max_rights : Rights
agent_max_rights =
    bit_or (bit_or (bit_or introspect_right audit_query_right) send_right) receive_right

-- `policy::allows`
unfoldable pub allows : Rights → Bool
unfolding agent_max_rights contains
allows rights = contains agent_max_rights rights

pub contains_iff : (a b : Rights) → (contains a b ≡ true → bit_and a b ≡ b)
unfolding contains
contains_iff a b h = (==_iff (bit_and a b) b).0 h

pub contains_of : (a b : Rights) → bit_and a b ≡ b → contains a b ≡ true
unfolding contains
contains_of a b h = (==_iff (bit_and a b) b).1 h

pub contains_refl : (a : Rights) → contains a a ≡ true
contains_refl a = contains_of a a (bit_and_self a)

-- Attenuation composes: what a subset contains, the whole contains.
pub contains_trans :
    (a b c : Rights) → contains a b ≡ true → contains b c ≡ true → contains a c ≡ true
contains_trans a b c h g = contains_of a c step
  where
    ab : bit_and a b ≡ b
    ab = contains_iff a b h

    bc : bit_and b c ≡ c
    bc = contains_iff b c g

    step : bit_and a c ≡ c
    step = ap (bit_and a) (sym bc) ∙ sym (bit_and_assoc a b c) ∙ ap (λ (x : ℕ). bit_and x c) ab ∙ bc

-- An intersection is contained in both of its sides.
pub contains-intersect :
    (a b : Rights) → (contains a (intersect a b) ≡ true) × (contains b (intersect a b) ≡ true)
unfolding intersect
contains-intersect a b = (contains_of a (bit_and a b) left, contains_of b (bit_and a b) right)
  where
    left : bit_and a (bit_and a b) ≡ bit_and a b
    left = sym (bit_and_assoc a a b) ∙ ap (λ (x : ℕ). bit_and x b) (bit_and_self a)

    right : bit_and b (bit_and a b) ≡ bit_and a b
    right =
        ap (bit_and b) (bit_and_comm a b)
        ∙ sym (bit_and_assoc b b a)
        ∙ ap (λ (x : ℕ). bit_and x a) (bit_and_self b)
        ∙ bit_and_comm b a

-- The policy refuses every request that contains a right which agents may not hold.
pub allows-excludes :
    (rights denied : Rights)
    → allows rights ≡ true
    → contains agent_max_rights denied ≡ false
    → contains rights denied ≡ false
unfolding allows
allows-excludes rights denied a d = elim (Bool-cases (contains rights denied)) [
  | inr out ↦ out
  | inl held ↦ cc (contains_trans agent_max_rights rights denied a held)
]
