-- ===== src/Bcdump/Uleb/Format.antt =====
-- The `U` of the grammar in LuaJIT-2.0.1/src/lj_bcdump.h, and the writer's loop against it.
use probabilistic_lua.Common.{
  ℕ, zero, suc, ◌+◌, ◌/◌, ◌%◌, ◌^◌, ◌≤◌, ◌<◌, bit_and, bit_or, List, [], ◌∷◌, ltb, if◌then◌else◌,
  length, ◌≡◌, refl, arith, dec_lt, le→ltb, lt→ltb, le→leb, lt→leb_false, ap,
}
use native.Mathlib.Nat.{pow-suc}
use probabilistic_lua.Common.Bits.{bit_or-shift, bit_and_mask}
use probabilistic_lua.Common.Result.{◌>>=◌}
use probabilistic_lua.Bcdump.Buffer.{SBuf, bcwrite_byte}
use probabilistic_lua.Bcdump.Buffer.Adds.{Adds, Adds-bind, byte-Adds}
use probabilistic_lua.Bcdump.Uleb.{uleb_loop, bcwrite_uleb128}

-- Groups of seven bits, the lowest first; all but the last have the top bit set.
-- At most `k + 1` of them, for numbers below 128 ^ (k + 1).
unfoldable pub uleb : ℕ → ℕ → List ℕ
uleb zero v = v ∷ []
uleb (suc k) v = let more = uleb k (v / 128) in if ltb v 128 then v ∷ [] else (v % 128 + 128) ∷ more

abbrev pub uleb128 : ℕ → List ℕ
uleb128 v = uleb 4 v

pub length-uleb : (k v : ℕ) → (1 ≤ length (uleb k v)) × (length (uleb k v) ≤ k + 1)
unfolding uleb
length-uleb zero v = omega arith
length-uleb (suc k) v = ground (arith, length-uleb k (v / 128))

-- `(v & 0x7f) | 0x80`.
group_byte : (v : ℕ) → bit_or (bit_and v 0x7f) 0x80 ≡ v % 128 + 128
group_byte v = rw (bit_and_mask 7 v) (bit_or-shift 7 (v % 128) 1 (omega arith))

uleb_loop_last : (k : ℕ) (b : SBuf) (v : ℕ) → v < 128 → uleb_loop (suc k) b v ≡ bcwrite_byte b v
unfolding uleb_loop
uleb_loop_last k b v h = let e : v % 2 ^ 8 ≡ v = omega arith in rw (lt→leb_false 0x80 v h, e)

uleb_loop_more :
    (k : ℕ) (b : SBuf) (v : ℕ)
    → 128 ≤ v
    → uleb_loop (suc k) b v ≡ bcwrite_byte b (v % 128 + 128) >>= λ b'. uleb_loop k b' (v / 128)
unfolding uleb_loop
uleb_loop_more k b v h = rw (le→leb 0x80 v h, group_byte)

pub uleb_last : (k v : ℕ) → v < 128 → uleb k v ≡ v ∷ []
unfolding uleb
uleb_last zero v h = refl
uleb_last (suc k) v h = rw (lt→ltb v 128 h)

pub uleb_more : (k v : ℕ) → 128 ≤ v → uleb (suc k) v ≡ (v % 128 + 128) ∷ uleb k (v / 128)
unfolding uleb
uleb_more k v h = rw (le→ltb v 128 h)

uleb_loop-Adds_small :
    (k room : ℕ) (b : SBuf) (v : ℕ)
    → v < 128
    → length b.bytes + length (uleb k v) + room ≤ b.sz
    → Adds room b (uleb k v) (uleb_loop (suc k) b v)
uleb_loop-Adds_small k room b v small h =
    let len = ap length (uleb_last k v small) in
    rw (uleb_last k v small, uleb_loop_last k b v small) (byte-Adds room b v (omega arith))

uleb_loop-Adds :
    (k room : ℕ) (b : SBuf) (v : ℕ)
    → v < 128 ^ suc k
    → length b.bytes + length (uleb k v) + room ≤ b.sz
    → Adds room b (uleb k v) (uleb_loop (suc k) b v)
uleb_loop-Adds zero room b v hv h = uleb_loop-Adds_small 0 room b v (omega arith) h
uleb_loop-Adds (suc k) room b v hv h = elim (dec_lt v 128) [
  | yes small ↦ uleb_loop-Adds_small (suc k) room b v small h
  | no large ↦
      let len = ap length (uleb_more k v (omega arith)) in
      rw (uleb_more k v (omega arith), uleb_loop_more (suc k) b v (omega arith))
        (Adds-bind b ((v % 128 + 128) ∷ []) (uleb k (v / 128)) _
          (byte-Adds (length (uleb k (v / 128)) + room) b (v % 128 + 128) (omega arith))
          (λ b' n f g.
            uleb_loop-Adds k room b' (v / 128) (omega (arith, pow-suc 128 (suc k))) (omega arith)))
]

-- For a 32-bit number whose bytes fit in the buffer, bcwrite_uleb128 ends within its fuel, adds the
-- ULEB128 bytes of the number, and leaves the room asked for.
pub uleb128-Adds :
    (room : ℕ) (b : SBuf) (v : ℕ)
    → v < 2 ^ 32
    → length b.bytes + length (uleb128 v) + room ≤ b.sz
    → Adds room b (uleb128 v) (bcwrite_uleb128 b v)
unfolding bcwrite_uleb128
uleb128-Adds room b v hv h = uleb_loop-Adds 4 room b v (omega arith) h
