-- ===== src/Substrate/Fields.antt =====
-- Words that are put together from fields, and the fields read back.
use coretex_client.Prelude.{ℕ, ◌+◌, ◌*◌, ◌/◌, ◌%◌, ◌^◌, ◌<◌, ◌≡◌, sym, ap, ◌∙◌}
use coretex_client.Bits.{bit_and-mask, bit_or-shift}
use coretex_client.Substrate.PolicyAtoms.{field, mask}
use Prim.Native.Nat.{bit_or}

-- A field is a quotient's remainder.
pub field_lem : (w shift bits : ℕ) → field w shift (mask bits) ≡ w / 2 ^ shift % 2 ^ bits
field_lem w shift bits = bit_and-mask bits (w / 2 ^ shift)

-- A bitwise or of a multiple of 2 ^ k with a smaller number is their sum.
pub bit_or_below : (k q x b : ℕ) → x ≡ q * 2 ^ k → b < 2 ^ k → bit_or x b ≡ x + b
bit_or_below k q x b e h =
    ap (λ (t : ℕ). bit_or t b) e ∙ bit_or-shift k q b h ∙ ap (λ (t : ℕ). t + b) (sym e)
