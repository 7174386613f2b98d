-- ===== src/Bcdump/Write/Bytecode.antt =====
-- Bytecode instructions of a prototype: bcwrite_bytecode of LuaJIT-2.0.1/src/lj_bcwrite.c, with the
-- opcode numbers of lj_bc.h.
pub mod Original
use probabilistic_lua.Common.{
  ℕ, ◌+◌, ◌-◌, ◌*◌, ◌/◌, ◌%◌, bit_and, List, ◌∷◌, ◌++◌, Bool, true, false, not, ◌||◌, ◌==◌,
  if◌then◌else◌, length, take, drop,
}
use probabilistic_lua.Common.Result.{Result, ok, ◌>>=◌}
use probabilistic_lua.Bcdump.Buffer.{SBuf, bcwrite_block}
use probabilistic_lua.Bcdump.Types.{PtInfo}
use probabilistic_lua.Bcdump.Format.Values.{fmts, fmt_word}

abbrev pub bc_jfori : ℕ
bc_jfori = 74

abbrev pub bc_forl : ℕ
bc_forl = 75

abbrev pub bc_iforl : ℕ
bc_iforl = 76

abbrev pub bc_jforl : ℕ
bc_jforl = 77

abbrev pub bc_iiterl : ℕ
bc_iiterl = 79

abbrev pub bc_jiterl : ℕ
bc_jiterl = 80

abbrev pub bc_iloop : ℕ
bc_iloop = 82

abbrev pub bc_jloop : ℕ
bc_jloop = 83

-- `op == BC_IFORL || op == BC_IITERL || op == BC_ILOOP || op == BC_JFORI`.
abbrev pub is_blacklisted : ℕ → Bool
is_blacklisted op = op == bc_iforl || op == bc_iiterl || op == bc_iloop || op == bc_jfori

-- `op == BC_JFORL || op == BC_JITERL || op == BC_JLOOP`.
abbrev pub is_compiled : ℕ → Bool
is_compiled op = op == bc_jforl || op == bc_jiterl || op == bc_jloop

abbrev pub bc_b : ℕ → ℕ
bc_b ins = ins / 16777216 % 256

abbrev pub bc_c : ℕ → ℕ
bc_c ins = ins / 65536 % 256

-- The loop of the unpatching over the bytes of the instructions in the buffer: the opcode is the first
-- or last of four bytes (LJ_ENDIAN_SELECT). `startins rd` is `traceref(J, rd)->startins`.
unfoldable pub unpatch : Bool → (ℕ → ℕ) → List ℕ → List ℕ
unpatch false startins (op ∷ a ∷ p₂ ∷ p₃ ∷ p) =
    let rest = unpatch false startins p in
    let ins = startins (p₂ + p₃ * 256) in
    if is_blacklisted op
    then (op + bc_forl - bc_iforl) % 256 ∷ a ∷ p₂ ∷ p₃ ∷ rest
    else if is_compiled op
    then (op + bc_forl - bc_jforl) % 256 ∷ a ∷ bc_c ins ∷ bc_b ins ∷ rest
    else op ∷ a ∷ p₂ ∷ p₃ ∷ rest
unpatch true startins (p₀ ∷ p₁ ∷ a ∷ op ∷ p) =
    let rest = unpatch true startins p in
    let ins = startins (p₁ + p₀ * 256) in
    if is_blacklisted op
    then p₀ ∷ p₁ ∷ a ∷ (op + bc_forl - bc_iforl) % 256 ∷ rest
    else if is_compiled op
    then bc_b ins ∷ bc_c ins ∷ a ∷ (op + bc_forl - bc_jforl) % 256 ∷ rest
    else p₀ ∷ p₁ ∷ a ∷ op ∷ rest
unpatch be startins p = p

-- `(pt->flags & PROTO_ILOOP) || pt->trace`.
unfoldable pub is_patched : PtInfo → Bool
is_patched pt = not (bit_and pt.flags 0x10 == 0) || not (pt.trace == 0)

-- The block `proto_bc(pt)+1` as it is in the memory of the host.
abbrev pub host_block : Bool → PtInfo → List ℕ
host_block be pt = fmts (fmt_word be) pt.bc

-- The block is copied, and then its bytes in the buffer, from `p = &buf[n]` on, are unpatched.
unfoldable pub bcwrite_bytecode : Bool → (ℕ → ℕ) → SBuf → PtInfo → Result SBuf
unfolding unpatch is_patched
bcwrite_bytecode be startins sb pt = do
  let n = length sb.bytes
  sb₁ ← bcwrite_block sb (host_block be pt)
  if is_patched pt
      then ok (record sb₁ { bytes = take n sb₁.bytes ++ unpatch be startins (drop n sb₁.bytes) })
      else ok sb₁
