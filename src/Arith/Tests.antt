-- ===== src/Arith/Tests.antt =====
-- The theorems on integer arithmetic, at numbers.
use probabilistic_lua.Common.{◌-◌, ◌%◌, ◌^◌, ◌≡◌, refl, arith}
use probabilistic_lua.Common.Result.{ok}
use probabilistic_lua.Arith.{
  is_negative, magnitude, lj_carith_divi64, lj_carith_modi64, lj_carith_powu64, lj_vm_modi,
}
use probabilistic_lua.Arith.Power.{powu64-pow}
use probabilistic_lua.Arith.Modulo.{floored, modi-floored}

powu64-pow_example : lj_carith_powu64 3 45 ≡ ok (3 ^ 45 % 2 ^ 64)
powu64-pow_example = powu64-pow 3 45 (omega arith) (omega arith)

modi-floored_example :
    lj_vm_modi (2 ^ 32 - 7) 3
    ≡ floored
        (magnitude 32 (2 ^ 32 - 7) % magnitude 32 3)
        (magnitude 32 3)
        (is_negative 32 (2 ^ 32 - 7))
        (is_negative 32 3)
modi-floored_example = modi-floored (2 ^ 32 - 7) 3 (omega arith) (λ e. absurd (omega (arith, e)))

-- -7 / 2 and -7 % 2 truncate, and so do the smallest number and -1.
divi64_test : lj_carith_divi64 (2 ^ 64 - 7) 2 ≡ 2 ^ 64 - 3
unfolding lj_carith_divi64
divi64_test = refl

modi64_test : lj_carith_modi64 (2 ^ 64 - 7) 2 ≡ 2 ^ 64 - 1
unfolding lj_carith_modi64
modi64_test = refl

modi64_overflow : lj_carith_modi64 (2 ^ 63) (2 ^ 64 - 1) ≡ 0
unfolding lj_carith_modi64
modi64_overflow = refl
