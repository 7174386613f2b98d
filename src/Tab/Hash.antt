-- ===== src/Tab/Hash.antt =====
-- Hash values: lj_rol of LuaJIT-2.0.1/src/lj_def.h, hashrot of lj_tab.h, hashmask and hashkey of lj_tab.c.
use probabilistic_lua.Common.{
  ℕ, ◌+◌, ◌-◌, ◌*◌, ◌/◌, ◌%◌, ◌^◌, ◌<◌, bit_and, bit_or, bit_xor, if◌then◌else◌, ◌≡◌, arith,
}
use probabilistic_lua.Common.Bits.Comm.{bit_xor_comm, shift-bit_or}
use probabilistic_lua.Tab.Types.{TKey, boolean, int, num, str, obj, KeyOps, Tab}

-- `((x)<<(n)) | ((x)>>(32-(n)))` on uint32_t.
unfoldable pub lj_rol : ℕ → ℕ → ℕ
lj_rol x n = bit_or ((x * 2 ^ n) % 2 ^ 32) (x / 2 ^ (32 - n))

abbrev pub sub32 : ℕ → ℕ → ℕ
sub32 a b = (a + 2 ^ 32 - b) % 2 ^ 32

-- The variant for two-operand CPUs (LJ_TARGET_X86ORX64).
unfoldable pub hashrot_x86 : ℕ → ℕ → ℕ
hashrot_x86 lo hi =
    let lo₁ = bit_xor lo hi in
    let hi₁ = lj_rol hi 14 in
    let lo₂ = sub32 lo₁ hi₁ in
    let hi₂ = lj_rol hi₁ 5 in let hi₃ = bit_xor hi₂ lo₂ in sub32 hi₃ (lj_rol lo₂ 13)

unfoldable pub hashrot : ℕ → ℕ → ℕ
hashrot lo hi =
    let lo₁ = bit_xor lo hi in
    let lo₂ = sub32 lo₁ (lj_rol hi 14) in
    let hi₁ = bit_xor lo₂ (lj_rol hi (14 + 5)) in sub32 hi₁ (lj_rol lo₂ 13)

-- HASH_BIAS, -0x04c11db7 in 32 bits.
abbrev pub hash_bias : ℕ
hash_bias = 2 ^ 32 - 0x04c11db7

-- The hash of a key before it is masked: hashkey with hashstr, hashnum, hashgcref and `boolV`. Integer
-- keys are never hashed: `int` gets the hash of its double.
module _ (ops : KeyOps) where
  unfoldable pub hash_of : TKey → ℕ
  unfolding hashrot
  hash_of (str s) = ops.str_hash s
  hash_of (num lo hi) = hashrot lo ((hi * 2) % 2 ^ 32)
  hash_of (boolean b) = if b then 1 else 0
  hash_of (obj g a) = hashrot a ((a + hash_bias) % 2 ^ 32)
  hash_of (int k) = hashrot (ops.int2num k).0 (((ops.int2num k).1 * 2) % 2 ^ 32)

  -- hashkey: the index of the anchor position.
  unfoldable pub hashkey : {V : Type 0} → Tab V → TKey → ℕ
  hashkey t key = bit_and (hash_of key) t.hmask

-- A rotation as a sum, for the amounts that are used.
rol_sum :
    (x n q : ℕ)
    → (x * 2 ^ n) % 2 ^ 32 ≡ q * 2 ^ n
    → x / 2 ^ (32 - n) < 2 ^ n
    → lj_rol x n ≡ q * 2 ^ n + x / 2 ^ (32 - n)
unfolding lj_rol
rol_sum x n q e h = rw e (shift-bit_or n (x / 2 ^ (32 - n)) q h)

-- Two rotations add up.
rol_14_5 : (x : ℕ) → x < 2 ^ 32 → lj_rol (lj_rol x 14) 5 ≡ lj_rol x 19
rol_14_5 x h =
    let y : ℕ = x % 262144 * 16384 + x / 262144 in
    let first : lj_rol x 14 ≡ y = rol_sum x 14 (x % 262144) (omega arith) (omega arith) in
    let second : lj_rol y 5 ≡ y % 134217728 * 32 + y / 134217728 =
      rol_sum y 5 (y % 134217728) (omega arith) (omega arith) in
    let whole : lj_rol x 19 ≡ x % 8192 * 524288 + x / 8192 =
      rol_sum x 19 (x % 8192) (omega arith) (omega arith) in
    rw first (omega arith)

-- For words of which the second has 32 bits, the variant of hashrot for CPUs with two operands
-- computes the same hash as the other one.
pub hashrot_x86-eq-hashrot : (lo hi : ℕ) → hi < 2 ^ 32 → hashrot_x86 lo hi ≡ hashrot lo hi
unfolding hashrot_x86 hashrot
hashrot_x86-eq-hashrot lo hi h =
    let lo₂ = sub32 (bit_xor lo hi) (lj_rol hi 14) in
    rw (rol_14_5 hi h, bit_xor_comm (lj_rol hi 19) lo₂)
