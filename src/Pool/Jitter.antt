-- ===== src/Pool/Jitter.antt =====
-- `Jitter`, its two implementations and the xorshift generator of src/pool.rs.
pub mod Bounds
use Prim.Native.Nat.{bit_xor}
use orihsus.Prelude.{ℕ, ◌+◌, ◌-◌, ◌*◌, ◌/◌, ◌%◌, ◌^◌, min, max}
use orihsus.Time.{saturating_add}

abbrev pub u64_mod : ℕ
u64_mod = 2 ^ 64

-- `XorShift64`, by its 64-bit state.
pub record XorShift64 : Type 0 where
  pub word : ℕ

unfoldable pub seeded : ℕ → XorShift64
seeded seed = record { word = max seed 1 }

-- A shift to the left drops what passes 64 bits.
unfoldable pub next_u64 : XorShift64 → ℕ × XorShift64
next_u64 g =
    let a = bit_xor g.word (g.word * 2 ^ 13 % u64_mod) in
    let b = bit_xor a (a / 2 ^ 7) in
    let c = bit_xor b (b * 2 ^ 17 % u64_mod) in (c, record { word = c })

-- The implementations of the trait: `NoJitter`, and `UniformJitter` with its generator.
pub data Jitter : Type 0 where
  no_jitter : Jitter
  uniform_jitter : XorShift64 → Jitter

-- `UniformJitter::default`, from the nanoseconds of the wall clock.
unfoldable pub default_jitter : ℕ → Jitter
unfolding seeded
default_jitter clock_nanos =
    uniform_jitter (seeded (bit_xor (clock_nanos % u64_mod) 0x51_7c_c1_b7_27_22_0a_95))

-- The modulus is the half plus one, saturating at the largest 64-bit number.
offset_below : ℕ → ℕ → ℕ
offset_below half random = random % min (half + 1) (u64_mod - 1)

unfoldable pub jitter : Jitter → ℕ → ℕ × Jitter
unfolding offset_below
jitter no_jitter base = (base, no_jitter)
jitter (uniform_jitter g) base =
    let (random, g') = next_u64 g in
    (saturating_add base (offset_below (base / 2 % u64_mod) random), uniform_jitter g')
