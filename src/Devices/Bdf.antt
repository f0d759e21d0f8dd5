-- ===== src/Devices/Bdf.antt =====
-- Packed bus, device and function numbers, kernel_common/src/supervision.rs.
use agentic_os.Base.{
  ℕ, ◌+◌, ◌*◌, ◌/◌, ◌%◌, ◌^◌, ◌<◌, ◌≡◌, ap, ap₂, ◌∙◌, arith, bit_or, bit_and, u32, u8, ◌-◌,
}
use agentic_os.Base.Bits.{bit_and-ones}
use agentic_os.Base.Or.{bit_or-low}
use agentic_os.Devices.{pack_bdf, unpack_bdf}

pub pack_bdf_lem :
    (bus device function : ℕ)
    → bus < 2 ^ 8
    → device < 2 ^ 8
    → function < 2 ^ 8
    → pack_bdf bus device function ≡ bus * 2 ^ 16 + device * 2 ^ 8 + function
unfolding pack_bdf
pack_bdf_lem bus device function hb hd hf =
    let outer : u32 (bus * 2 ^ 16) ≡ bus * 2 ^ 16 = omega arith in
    let inner : u32 (device * 2 ^ 8) ≡ device * 2 ^ 8 = omega arith in
    let high : bit_or (u32 (bus * 2 ^ 16)) (u32 (device * 2 ^ 8)) ≡ (bus * 2 ^ 8 + device) * 2 ^ 8 =
      ap₂ bit_or outer inner ∙ omega (arith, bit_or-low 16 bus (device * 2 ^ 8) (omega arith)) in
    ap (λ x. bit_or x function) high
    ∙ omega (arith, bit_or-low 8 (bus * 2 ^ 8 + device) function hf)

-- Unpacking a packed triple of bytes gives back the triple, and the packed number fits 24 bits.
pub unpack_bdf-pack_bdf :
    (bus device function : ℕ)
    → bus < 2 ^ 8
    → device < 2 ^ 8
    → function < 2 ^ 8
    → (unpack_bdf (pack_bdf bus device function) ≡ (bus, device, function))
      × (pack_bdf bus device function < 2 ^ 24)
unfolding unpack_bdf
unpack_bdf-pack_bdf bus device function hb hd hf = rw (pack_bdf_lem bus device function hb hd hf) (
  triple (field (packed / 2 ^ 16) bus (omega arith)) (field (packed / 2 ^ 8) device (omega arith))
      (field packed function (omega arith)),
  omega arith,
)
  where
    packed : ℕ
    packed = bus * 2 ^ 16 + device * 2 ^ 8 + function

    field : (x y : ℕ) → x % 2 ^ 8 ≡ y → u8 (bit_and x (2 ^ 8 - 1)) ≡ y
    field x y e = omega (arith, bit_and-ones 8 x)

    triple :
        {a b c a' b' c' : ℕ} → a ≡ a' → b ≡ b' → c ≡ c' → ◌≡◌ {A = ℕ × ℕ × ℕ} (a, b, c) (a', b', c')
    triple x y z = λ i. (x i, y i, z i)
