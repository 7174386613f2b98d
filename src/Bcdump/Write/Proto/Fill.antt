-- ===== src/Bcdump/Write/Proto/Fill.antt =====
-- The size in front of a prototype: the end of bcwrite_proto of LuaJIT-2.0.1/src/lj_bcwrite.c.
use probabilistic_lua.Common.{
  ℕ, ◌+◌, ◌-◌, ◌^◌, ◌≤◌, ◌<◌, List, ◌++◌, Bool, length, length-append, take, drop, replicate,
  take-append_le, take-length, length-take, drop-append_length, ◌≡◌, refl, sym, ap, ◌∙◌, arith,
  append_assoc,
}
use probabilistic_lua.Common.Result.{ok}
use probabilistic_lua.Bcdump.Buffer.{SBuf}
use probabilistic_lua.Bcdump.Uleb.Format.{uleb128, uleb128-Adds, length-uleb}
use probabilistic_lua.Bcdump.Types.{Build}
use probabilistic_lua.Bcdump.Write.Proto.Size.{size-bytes}
use probabilistic_lua.Bcdump.Write.Proto.{fill_size}

-- The five bytes are replaced by exactly the size.
pub fill-fmt :
    (b : Build) (startins : ℕ → ℕ) (strip : Bool) (sb : SBuf) (pd : List ℕ)
    → sb.bytes ≡ replicate 5 0 ++ pd
    → 5 ≤ sb.sz
    → 0 < length pd
    → length pd < 2 ^ 31
    → fill_size b startins strip sb ≡ ok (uleb128 (length pd) ++ pd)
unfolding fill_size
fill-fmt b startins strip sb pd e h pos small =
    let n = length pd in
    let nn = length (uleb128 n) in
    let bounds = length-uleb 4 n in
    let five : List ℕ = replicate 5 0 in
    let z = take (5 - nn) five in
    let same_n : length (five ++ pd) - 5 ≡ n = omega (arith, length-append five pd) in
    let room : take (5 - nn) (five ++ pd) ≡ z = take-append_le (5 - nn) five pd (omega arith) in
    let zlen : length z ≡ 5 - nn = length-take (5 - nn) five ∙ omega arith in
    let a = uleb128-Adds 0 (record sb { bytes = z }) n (omega arith) (omega arith) in
    let whole : length (z ++ uleb128 n) ≡ 5 = length-append z (uleb128 n) ∙ omega arith in
    let tail : drop 5 (five ++ pd) ≡ pd = refl in
    let at_z : drop (5 - nn) (z ++ (uleb128 n ++ pd)) ≡ uleb128 n ++ pd =
      ap (λ k. drop k (z ++ (uleb128 n ++ pd))) (sym zlen)
      ∙ drop-append_length z (uleb128 n ++ pd) in
    let all : take (nn + n) (uleb128 n ++ pd) ≡ uleb128 n ++ pd =
      ap (λ k. take k (uleb128 n ++ pd)) (sym (length-append (uleb128 n) pd))
      ∙ take-length (uleb128 n ++ pd) in
    rw
      (
        e,
        same_n,
        size-bytes n pos (omega arith),
        room,
        a.run,
        a.added,
        whole,
        append_assoc z (uleb128 n) pd,
        at_z,
        all,
      )
      refl
