-- ===== src/Substrate/MemoryIndex/Flags.antt =====
-- The flags of a memory index slot, written and read.
use coretex_client.Prelude.{ℕ, ◌<◌, ◌≡◌, refl, some, Bool, true, false, not, arith, ◌==◌}
use coretex_client.Substrate.MemoryIndex.{
  SubstrateFamily, near_collision, temporal, long_horizon, multi_hop_relation, family_by_bits,
  family_to_bits, flag,
}
use Prim.Native.Nat.{bit_and, bit_or}

pub family-round_trip : (f : SubstrateFamily) → family_by_bits (family_to_bits f) ≡ some f
unfolding family_by_bits family_to_bits
family-round_trip near_collision = refl
family-round_trip temporal = refl
family-round_trip long_horizon = refl
family-round_trip multi_hop_relation = refl

pub family-small : (f : SubstrateFamily) → family_to_bits f < 4
unfolding family_to_bits
family-small near_collision = omega arith
family-small temporal = omega arith
family-small long_horizon = omega arith
family-small multi_hop_relation = omega arith

-- The four flags, read back one by one.
pub record FlagsRead (flags : ℕ) (valid revoked protected anchor : Bool) : Type 0 where
  pub small : flags < 16
  pub valid_read : not (bit_and flags 1 == 0) ≡ valid
  pub revoked_read : not (bit_and flags 2 == 0) ≡ revoked
  pub protected_read : not (bit_and flags 4 == 0) ≡ protected
  pub anchor_read : not (bit_and flags 8 == 0) ≡ anchor

abbrev pub flags_of : Bool → Bool → Bool → Bool → ℕ
flags_of v r p a = bit_or (bit_or (bit_or (flag v 1) (flag r 2)) (flag p 4)) (flag a 8)

pub flags-read : (v r p a : Bool) → FlagsRead (flags_of v r p a) v r p a
flags-read true true true true = record {
  small = omega arith;
  valid_read = refl;
  revoked_read = refl;
  protected_read = refl;
  anchor_read = refl;
}
flags-read true true true false = record {
  small = omega arith;
  valid_read = refl;
  revoked_read = refl;
  protected_read = refl;
  anchor_read = refl;
}
flags-read true true false true = record {
  small = omega arith;
  valid_read = refl;
  revoked_read = refl;
  protected_read = refl;
  anchor_read = refl;
}
flags-read true true false false = record {
  small = omega arith;
  valid_read = refl;
  revoked_read = refl;
  protected_read = refl;
  anchor_read = refl;
}
flags-read true false true true = record {
  small = omega arith;
  valid_read = refl;
  revoked_read = refl;
  protected_read = refl;
  anchor_read = refl;
}
flags-read true false true false = record {
  small = omega arith;
  valid_read = refl;
  revoked_read = refl;
  protected_read = refl;
  anchor_read = refl;
}
flags-read true false false true = record {
  small = omega arith;
  valid_read = refl;
  revoked_read = refl;
  protected_read = refl;
  anchor_read = refl;
}
flags-read true false false false = record {
  small = omega arith;
  valid_read = refl;
  revoked_read = refl;
  protected_read = refl;
  anchor_read = refl;
}
flags-read false true true true = record {
  small = omega arith;
  valid_read = refl;
  revoked_read = refl;
  protected_read = refl;
  anchor_read = refl;
}
flags-read false true true false = record {
  small = omega arith;
  valid_read = refl;
  revoked_read = refl;
  protected_read = refl;
  anchor_read = refl;
}
flags-read false true false true = record {
  small = omega arith;
  valid_read = refl;
  revoked_read = refl;
  protected_read = refl;
  anchor_read = refl;
}
flags-read false true false false = record {
  small = omega arith;
  valid_read = refl;
  revoked_read = refl;
  protected_read = refl;
  anchor_read = refl;
}
flags-read false false true true = record {
  small = omega arith;
  valid_read = refl;
  revoked_read = refl;
  protected_read = refl;
  anchor_read = refl;
}
flags-read false false true false = record {
  small = omega arith;
  valid_read = refl;
  revoked_read = refl;
  protected_read = refl;
  anchor_read = refl;
}
flags-read false false false true = record {
  small = omega arith;
  valid_read = refl;
  revoked_read = refl;
  protected_read = refl;
  anchor_read = refl;
}
flags-read false false false false = record {
  small = omega arith;
  valid_read = refl;
  revoked_read = refl;
  protected_read = refl;
  anchor_read = refl;
}
