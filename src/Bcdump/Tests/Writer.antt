-- ===== src/Bcdump/Tests/Writer.antt =====
-- The writer's theorems on the sample prototypes.
use probabilistic_lua.Common.{
  ℕ, ◌+◌, ◌*◌, ◌/◌, ◌^◌, ◌≤◌, List, [], ◌∷◌, ◌++◌, true, false, ltb, if◌then◌else◌, length, map,
  All, replicate, ◌≡◌, arith,
}
use probabilistic_lua.Common.Result.{ok}
use probabilistic_lua.Bcdump.Buffer.{SBuf, bcwrite_need}
use probabilistic_lua.Bcdump.Buffer.Adds.{Adds, need-Adds}
use probabilistic_lua.Bcdump.Uleb.{bcwrite_uleb128}
use probabilistic_lua.Bcdump.Uleb.Format.{uleb, uleb128, uleb128-Adds}
use probabilistic_lua.Bcdump.Uleb.Wide.{bcwrite_wide, wide-Adds}
use probabilistic_lua.Bcdump.Types.{proto, Knum, int, num, IsKnum}
use probabilistic_lua.Bcdump.Format.Values.{
  fmts, fmt_ktabk, fmt_ktab, fmt_kgc, fmt_kgcs, fmt_knum, fmt_word, fmt_half, fmt_line, fmt_debug,
  fmt_debughead, fmt_phead, fmt_pdata, count_kgcs,
}
use probabilistic_lua.Bcdump.Format.Save.{
  saved_bc, original, same_d, trace_d, trim, keep, as_int, save_num, save_value, used_pairs,
  save_tab, save_info, save_proto, save_kgcs, save_kgc,
}
use probabilistic_lua.Bcdump.Format.Valid.{IsSmall}
use probabilistic_lua.Bcdump.Write.Table.{bcwrite_ktab}
use probabilistic_lua.Bcdump.Write.Table.Adds.{ktab-Adds}
use probabilistic_lua.Bcdump.Write.Consts.{bcwrite_kgc, bcwrite_knum}
use probabilistic_lua.Bcdump.Write.Consts.Adds.{kgcs-Adds, bcwrite_knum-Adds}
use probabilistic_lua.Bcdump.Write.Proto.{lj_fls, write_pdata, lj_bcwrite}
use probabilistic_lua.Bcdump.Write.Proto.Size.{size-bytes}
use probabilistic_lua.Bcdump.Write.Proto.Adds.{pdata-Adds}
use probabilistic_lua.Bcdump.Write.Proto.Feed.{dump, lj_bcwrite-dump}
use probabilistic_lua.Bcdump.Format.Pieces.{feed}
use probabilistic_lua.Bcdump.Tests.Samples.{
  little, big, patched_info, patched-IsInfo, low_laws, table, table-IsTab, root_info, root_kgcs,
  root_kgcs-IsKgcs, root-IsProto,
}

abbrev buffer : SBuf
buffer = record { bytes = 1 ∷ 2 ∷ []; sz = 64 }

need-Adds_example : Adds 1000 buffer [] (bcwrite_need buffer 1000)
need-Adds_example = need-Adds buffer 1000 (omega arith) (omega arith)

uleb128-Adds_example : Adds 7 buffer (uleb128 300) (bcwrite_uleb128 buffer 300)
uleb128-Adds_example = uleb128-Adds 7 buffer 300 (omega arith) (unfold uleb in omega arith)

wide-Adds_example : Adds 7 buffer (uleb128 (2 * 0xfffffff0 + 1)) (bcwrite_wide buffer 0xfffffff0 1)
wide-Adds_example =
    wide-Adds 7 buffer 0xfffffff0 1 (omega arith) (omega arith) (unfold uleb in omega arith)

size-bytes_example : (lj_fls 70000 + 8) * 9 / 2 ^ 6 ≡ length (uleb128 70000)
size-bytes_example = size-bytes 70000 (omega arith) (omega arith)

table_small : 11 * length (fmt_ktab (save_tab big table)) + 128 ≤ 2 ^ 31
unfolding fmt_ktab save_tab fmts fmt_ktabk save_value save_num as_int used_pairs uleb trim keep
table_small = omega arith

ktab-Adds_example : Adds 0 buffer (fmt_ktab (save_tab big table)) (bcwrite_ktab big buffer table)
ktab-Adds_example =
    ktab-Adds big low_laws buffer table table-IsTab (omega arith) (omega (arith, table_small))

kgcs_small : 11 * length (fmt_kgcs (save_kgcs little (λ t. t) false root_kgcs)) + 128 ≤ 2 ^ 31
unfolding fmt_kgcs save_kgcs fmt_ktab save_tab fmts fmt_ktabk save_value save_num used_pairs uleb
    trim keep fmt_kgc save_kgc
kgcs_small = omega arith

kgcs-Adds_example :
    Adds 0 buffer
      (fmt_kgcs (save_kgcs little (λ t. t) false root_kgcs))
      (bcwrite_kgc little buffer root_kgcs)
kgcs-Adds_example =
    kgcs-Adds little low_laws (λ t. t) false buffer root_kgcs root_kgcs-IsKgcs (omega arith)
      (omega (arith, kgcs_small))

pub root-IsSmall :
    IsSmall false false (save_proto little (λ t. t) false (proto root_info root_kgcs))
unfolding fmt_pdata fmt_phead fmt_kgcs save_kgcs fmt_ktab save_tab fmts fmt_ktabk save_value
    save_num used_pairs uleb trim keep fmt_kgc save_kgc fmt_debug fmt_line fmt_debughead fmt_word
    fmt_half save_proto save_info fmt_knum count_kgcs saved_bc
root-IsSmall = (omega arith, ((omega arith, tt), (tt, (tt, (tt, tt)))))

-- The first number is narrowed.
abbrev numbers : List Knum
numbers = num 5 0 ∷ num 1 0x3ff00000 ∷ int 0xfffffff0 ∷ []

numbers-IsKnum : All IsKnum numbers
numbers-IsKnum = ((omega arith, omega arith), ((omega arith, omega arith), (omega arith, tt)))

knums_small : 11 * length (fmts fmt_knum (map (save_num big true) numbers)) + 128 ≤ 2 ^ 31
unfolding fmts fmt_knum save_num as_int uleb
knums_small = omega arith

bcwrite_knum-Adds_example :
    Adds 0 buffer
      (fmts fmt_knum (map (save_num big true) numbers))
      (bcwrite_knum big buffer numbers)
bcwrite_knum-Adds_example =
    bcwrite_knum-Adds big low_laws buffer numbers numbers-IsKnum (omega arith)
      (omega (arith, knums_small))

-- The start instruction of a trace.
abbrev start : ℕ → ℕ
start trace = trace * 65536 + 75

patched-IsSmall : IsSmall false false (save_proto little start false (proto patched_info root_kgcs))
unfolding fmt_pdata fmt_phead fmt_kgcs save_kgcs fmt_ktab save_tab fmts fmt_ktabk save_value
    save_num used_pairs uleb trim keep fmt_kgc save_kgc fmt_debug fmt_line fmt_debughead fmt_word
    fmt_half save_proto save_info fmt_knum count_kgcs saved_bc original same_d trace_d
patched-IsSmall = (omega arith, ((omega arith, tt), (tt, (tt, (tt, tt)))))

pdata-Adds_example :
    Adds 0
      (record buffer { bytes = replicate 5 0 })
      (fmt_pdata false false (save_proto little start false (proto patched_info root_kgcs)))
      (write_pdata little start false buffer patched_info root_kgcs)
unfolding save_proto
pdata-Adds_example =
    pdata-Adds little start low_laws false patched_info root_kgcs buffer patched-IsInfo
      root_kgcs-IsKgcs (omega arith) patched-IsSmall.0

-- A writer function that keeps two blocks and then reports an error.
abbrev collect : List (List ℕ) → List ℕ → List (List ℕ) × ℕ
collect st c = (st ++ (c ∷ []), (if ltb (length st) 1 then 0 else 1))

lj_bcwrite-dump_example :
    lj_bcwrite little (λ t. t) false collect (proto root_info root_kgcs) (61 ∷ 116 ∷ []) []
    ≡ ok (
        feed collect
          ([], 0)
          (dump little low_laws (λ t. t) false collect root_info root_kgcs (61 ∷ 116 ∷ [])))
lj_bcwrite-dump_example =
    lj_bcwrite-dump little low_laws (λ t. t) false collect root_info root_kgcs (61 ∷ 116 ∷ []) []
      root-IsProto root-IsSmall (omega arith)
