-- ===== src/AuthorityGraph/Checksum.antt =====
-- The checksum of kernel_common/src/impossibility_certificate.rs is injective in each word it mixes in.
use agentic_os.Base.{
  ℕ, ◌+◌, ◌*◌, ◌^◌, ◌<◌, ◌≡◌, ap, ◌∙◌, [], ◌∷◌, Bool, none, some, bit_or, bit_xor, u64, arith,
}
use agentic_os.Base.Or.{bit_or-low}
use agentic_os.Base.Xor.{bit_xor-lt, bit_xor-cancel_left, bit_xor-cancel_right, prime-cancel}
use agentic_os.AuthorityGraph.{
  Graph, Grant, Principal, cpu_process, pci_device, mix, bit_of, mix_principal, checksum_from,
}

-- The fields have the widths of their types.
abbrev pub Fits : Principal → Type 0
Fits (cpu_process id) = id < 2 ^ 32
Fits (pci_device b d f) = (b < 2 ^ 8) × (d < 2 ^ 8) × (f < 2 ^ 8)

abbrev pub FitsGrant : Grant → Type 0
FitsGrant g = Fits g.principal × (g.phys_base < 2 ^ 64) × (g.len < 2 ^ 64)

abbrev pub AllFields : Graph → Type 0
AllFields [] = Unit
AllFields (none ∷ slots) = AllFields slots
AllFields (some g ∷ slots) = FitsGrant g × AllFields slots

pub mix-lt : (h v : ℕ) → mix h v < 2 ^ 64
mix-lt h v = omega arith

-- `mix` is injective in the hash so far, and in the word.
pub mix-seed : (h k v : ℕ) → h < 2 ^ 64 → k < 2 ^ 64 → v < 2 ^ 64 → mix h v ≡ mix k v → h ≡ k
mix-seed h k v a b c e =
    bit_xor-cancel_right 64 h k v a b
      (prime-cancel (bit_xor h v) (bit_xor k v) (bit_xor-lt 64 h v a c) (bit_xor-lt 64 k v b c) e)

pub mix-word : (h v w : ℕ) → h < 2 ^ 64 → v < 2 ^ 64 → w < 2 ^ 64 → mix h v ≡ mix h w → v ≡ w
mix-word h v w a b c e =
    bit_xor-cancel_left 64 v w h b c
      (prime-cancel (bit_xor h v) (bit_xor h w) (bit_xor-lt 64 h v a b) (bit_xor-lt 64 h w a c) e)

pub bit_of-lt : (b : Bool) → bit_of b < 2 ^ 64
bit_of-lt b = ground arith

pub bit_of-cancel : (b c : Bool) → bit_of b ≡ bit_of c → b ≡ c
bit_of-cancel b c h = ground arith

-- The word of a device and a function.
pub slot_word : (d f : ℕ) → d < 2 ^ 8 → f < 2 ^ 8 → bit_or (u64 (d * 2 ^ 8)) f ≡ d * 2 ^ 8 + f
slot_word d f h g =
    let small : u64 (d * 2 ^ 8) ≡ d * 2 ^ 8 = omega arith in
    ap (λ x. bit_or x f) small ∙ bit_or-low 8 d f g

pub slot_word-lt : (d f : ℕ) → d < 2 ^ 8 → f < 2 ^ 8 → bit_or (u64 (d * 2 ^ 8)) f < 2 ^ 64
slot_word-lt d f h g = omega (arith, slot_word d f h g)

-- The loop body of `checksum_graph` after the principal.
abbrev pub mix_fields : ℕ → Grant → ℕ
mix_fields h g = mix (mix (mix (mix h g.phys_base) g.len) (bit_of g.writable)) (bit_of g.executable)

pub mix_principal-lt : (h : ℕ) (p : Principal) → mix_principal h p < 2 ^ 64
unfolding mix_principal
mix_principal-lt h (cpu_process id) = mix-lt _ 0
mix_principal-lt h (pci_device b d f) = mix-lt _ _

pub mix_fields-seed :
    (h k : ℕ) (g : Grant)
    → FitsGrant g
    → h < 2 ^ 64
    → k < 2 ^ 64
    → mix_fields h g ≡ mix_fields k g
    → h ≡ k
mix_fields-seed h k g (p, b, l) x y e = mix-seed h k g.phys_base x y b (
    mix-seed _ _ g.len (mix-lt _ _) (mix-lt _ _) l (
      mix-seed _ _ (bit_of g.writable) (mix-lt _ _) (mix-lt _ _) (bit_of-lt g.writable)
        (mix-seed _ _ (bit_of g.executable) (mix-lt _ _) (mix-lt _ _) (bit_of-lt g.executable) e)))

pub mix_principal-seed :
    (h k : ℕ) (p : Principal)
    → Fits p
    → h < 2 ^ 64
    → k < 2 ^ 64
    → mix_principal h p ≡ mix_principal k p
    → h ≡ k
unfolding mix_principal
mix_principal-seed h k (cpu_process id) w x y e = mix-seed h k 0 x y (omega arith) (
    mix-seed _ _ id (mix-lt _ _) (mix-lt _ _) (omega arith)
      (mix-seed _ _ 0 (mix-lt _ _) (mix-lt _ _) (omega arith) e))
mix_principal-seed h k (pci_device b d f) (p, q, r) x y e = mix-seed h k 1 x y (omega arith) (
    mix-seed _ _ b (mix-lt _ _) (mix-lt _ _) (omega arith)
      (mix-seed _ _ _ (mix-lt _ _) (mix-lt _ _) (slot_word-lt d f q r) e))

-- The checksum of the slots behind a grant depends on the hash so far.
pub checksum_from-seed :
    (slots : Graph) (h k : ℕ)
    → AllFields slots
    → h < 2 ^ 64
    → k < 2 ^ 64
    → checksum_from h slots ≡ checksum_from k slots
    → h ≡ k
unfolding checksum_from
checksum_from-seed [] h k w x y e = e
checksum_from-seed (none ∷ slots) h k w x y e = checksum_from-seed slots h k w x y e
checksum_from-seed (some g ∷ slots) h k (u, w) x y e = mix_principal-seed h k g.principal u.0 x y (
    mix_fields-seed _ _ g u (mix_principal-lt h g.principal) (mix_principal-lt k g.principal)
      (checksum_from-seed slots _ _ w (mix-lt _ _) (mix-lt _ _) e))
