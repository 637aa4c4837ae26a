-- ===== src/Drv/Pcf8574/Pins.antt =====
-- Setting a pin and reading it back.
use hq_components.Prelude.{
  ==_iff, Bool-cases, List, [], ap, arith, bit_at, bit_at-clear, bit_at-set, get_or, get_or-set_ne,
  get_or-set_self, if◌then◌else◌, inl, inr, length, lt→ltb, refl, set, shifted-bit, sym, ℕ, ◌&&◌,
  ◌-◌, ◌<◌, ◌==◌, ◌^◌, ◌∙◌, ◌∷◌, ◌≡◌,
}
use Prim.Native.Nat.{bit_and, bit_or}
use hq_components.Drv.Pcf8574.{write_address, update, get_output, get_output_pin, set_output_pin}

-- The byte that set_output_pin makes of the old one.
abbrev new_byte : ℕ → ℕ → ℕ → ℕ
new_byte p v b = if v == 0 then bit_and b (255 - 2 ^ p) else bit_or b (2 ^ p)

bit-new_byte :
    (p q v b : ℕ)
    → p < 8
    → q < 8
    → bit_at q (new_byte p v b) ≡ (if q == p then (if v == 0 then 0 else 1) else bit_at q b)
bit-new_byte p q v b h l = ground (arith, bit_at-set p q b h l, bit_at-clear p q b h l)

get_output_pin-bit :
    (device pin : ℕ) (pinstatus : List ℕ)
    → device < 8
    → pin < 8
    → get_output_pin device pin pinstatus ≡ bit_at pin (get_or pinstatus device 0)
unfolding get_output_pin
get_output_pin-bit device pin pinstatus d p =
    rw (lt→ltb device 8 d, lt→ltb pin 8 p) (shifted-bit pin (get_or pinstatus device 0) p)

set_output_pin-update :
    (answer device pin value : ℕ) (pinstatus : List ℕ)
    → device < 8
    → pin < 8
    → set_output_pin answer device pin value pinstatus
      ≡ update answer device (new_byte pin value (get_or pinstatus device 0)) pinstatus
unfolding set_output_pin
set_output_pin-update answer device pin value pinstatus d p =
    rw (lt→ltb device 8 d, lt→ltb pin 8 p) refl

-- A pin after the byte of an expander has been replaced.
pin-set :
    (device d p b : ℕ) (pinstatus : List ℕ)
    → length pinstatus ≡ 8
    → device < 8
    → d < 8
    → p < 8
    → get_output_pin d p (set pinstatus device b)
      ≡ (if d == device then bit_at p b else get_output_pin d p pinstatus)
pin-set device d p b pinstatus sized h dh ph = ground (
  arith,
  get_output_pin-bit d p (set pinstatus device b) dh ph,
  get_output_pin-bit d p pinstatus dh ph,
  get_or-set_self pinstatus device b 0,
  get_or-set_ne pinstatus device d b 0,
)

sent :
    (device b : ℕ) (pinstatus : List ℕ)
    → length pinstatus ≡ 8
    → device < 8
    → get_output device (set pinstatus device b) ≡ b
unfolding get_output
sent device b pinstatus sized h =
    rw (lt→ltb device 8 h) (get_or-set_self pinstatus device b 0 (omega (arith, sized, h)))

-- The pins of all expanders, when one of them has the new byte.
pin-new_byte :
    (device pin value d p : ℕ) (pinstatus : List ℕ)
    → d < 8
    → pin < 8
    → p < 8
    → (if d == device
        then bit_at p (new_byte pin value (get_or pinstatus device 0))
        else get_output_pin d p pinstatus)
      ≡ (if d == device && p == pin
          then (if value == 0 then 0 else 1)
          else get_output_pin d p pinstatus)
pin-new_byte device pin value d p pinstatus dh l ph = elim (Bool-cases (d == device)) [
  | inl e ↦
      let same = (==_iff d device).0 e in
      let old : bit_at p (get_or pinstatus device 0) ≡ get_output_pin d p pinstatus =
        ap (λ k. bit_at p (get_or pinstatus k 0)) (sym same)
        ∙ sym (get_output_pin-bit d p pinstatus dh ph) in
      rw e (
        bit-new_byte pin p value (get_or pinstatus device 0) l ph
        ∙ ap (λ k. if p == pin then (if value == 0 then 0 else 1) else k) old)
  | inr e ↦ rw e refl
]

-- Setting a pin of an expander in range gives back the answer of the bus and sends one byte, the
-- new output of that expander, to the address 0x40, whichever the expander is; from then on that
-- pin reads as set or clear, and every other pin of every expander in range as before.
pub set_output_pin_lem :
    (answer device pin value : ℕ) (pinstatus : List ℕ)
    → length pinstatus ≡ 8
    → device < 8
    → pin < 8
    → let o = set_output_pin answer device pin value pinstatus in
      (o.result ≡ answer)
      × (o.bus ≡ (64, get_output device o.pinstatus) ∷ [])
      × ((d p : ℕ)
          → d < 8
          → p < 8
          → get_output_pin d p o.pinstatus ≡ (
              if d == device && p == pin
              then (if value == 0 then 0 else 1)
              else get_output_pin d p pinstatus))
set_output_pin_lem answer device pin value pinstatus sized h l =
    let b = new_byte pin value (get_or pinstatus device 0) in
    rw (set_output_pin-update answer device pin value pinstatus h l) (
      refl,
      ap (λ c. (write_address, c) ∷ []) (sym (sent device b pinstatus sized h)),
      λ d p dh ph.
          pin-set device d p b pinstatus sized h dh ph
          ∙ pin-new_byte device pin value d p pinstatus dh l ph,
    )
