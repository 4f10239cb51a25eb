-- ===== src/State/Keccak/Shape.antt =====
-- The shape of a digest, and the end of the absorbing loop.
use coretex_client.Prelude.{ℕ, zero, suc, ◌+◌, ◌≤◌, ◌<◌, ◌≡◌, refl, List, length, All, arith}
use coretex_client.State.Keccak.{Lane, absorb_block, absorb_loop, keccak_f1600, keccak256}

-- A digest has 32 bytes.
pub keccak256_shape :
    (bytes : List ℕ) → (length (keccak256 bytes) ≡ 32) × All (λ b. b < 256) (keccak256 bytes)
unfolding keccak256
keccak256_shape bytes = (refl, omega arith)

-- With fuel for the bytes that are left, the loop ends by its test: less than one block is left.
absorb_loop_ends :
    (fuel : ℕ) (s : List Lane) (bytes : List ℕ) (offset : ℕ)
    → length bytes ≤ fuel + offset
    → length bytes < (absorb_loop fuel s bytes offset).1 + 136
unfolding absorb_loop
absorb_loop_ends zero s bytes offset h = omega arith
absorb_loop_ends (suc fuel) s bytes offset h =
    ground (
      arith,
      absorb_loop_ends fuel (keccak_f1600 (absorb_block s bytes offset)) bytes (offset + 136),
    )
