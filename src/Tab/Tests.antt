-- ===== src/Tab/Tests.antt =====
-- The theorems on tables, at a small table: two cells, and two nodes of which one is used.
use probabilistic_lua.Common.{
  ℕ, zero, suc, ◌≤◌, ◌<◌, ◌^◌, [], ◌∷◌, Bool, true, false, ◌&&◌, ltb, lt→ltb, ◌==◌, if◌then◌else◌,
  Option, none, some, eqb→eq, ◌≡◌, ◌≢◌, refl, ap, inr, arith,
}
use probabilistic_lua.Common.Result.{Result, ok, err, stuck}
use probabilistic_lua.Tab.Types.{TKey, num, str, KeyOps, Tab, empty}
use probabilistic_lua.Tab.Hash.{hash_of, hashkey, hashrot, hashrot_x86, hashrot_x86-eq-hashrot}
use probabilistic_lua.Tab.Find.{Slot, node_slot, lj_tab_get}
use probabilistic_lua.Tab.Find.Invariant.{IsHash, IsStored, key_at}
use probabilistic_lua.Tab.Find.Keys.{KeyLaws}
use probabilistic_lua.Tab.Find.Correct.{entry, Gets, Holds, index_of, lj_tab_get-Holds}
use probabilistic_lua.Tab.NewKey.{find_free, plain_key, put_key}
use probabilistic_lua.Tab.NewKey.Place.{Placed-IsHash}
use probabilistic_lua.Tab.NewKey.Stores.{put_key-Placed}
use probabilistic_lua.Tab.NewKey.Correct.{HasRoom, Entered, newkey-IsEntered}
use probabilistic_lua.Tab.Set.{write_slot, lj_tab_set}
use probabilistic_lua.Tab.Set.Write.{write_slot-IsHash}
use probabilistic_lua.Tab.Set.Correct.{IsUpdate, lj_tab_set-IsUpdate}
use probabilistic_lua.Tab.Len.{lj_tab_len}
use probabilistic_lua.Tab.Len.Correct.{IsBorder, lj_tab_len-IsBorder}
use probabilistic_lua.Tab.Next.{lj_tab_next}
use probabilistic_lua.Tab.Next.Correct.{IsNext, lj_tab_next-IsNext}
use probabilistic_lua.Tab.Next.Traverse.{traverse, entries_from, traverse-entries}
use probabilistic_lua.Tab.New.{Memory, lj_tab_new, lj_tab_dup}
use probabilistic_lua.Tab.New.Correct.{IsNew, empty-IsHash, lj_tab_new-IsNew}
use probabilistic_lua.Tab.Resize.{Bins, bestasize}
use probabilistic_lua.Tab.Resize.Best.{IsChosen, IsLargest, bestasize-IsLargest}
use probabilistic_lua.Tab.New.Dup.{IsCopy, lj_tab_dup-IsCopy}

-- Doubles of integers only: the low word is the integer, and -0 is the integer 0.
abbrev words_eq : ℕ × ℕ → ℕ × ℕ → Bool
words_eq a b = a.0 == b.0 && a.1 == b.1

abbrev low_int : ℕ → ℕ → Option ℕ
low_int lo hi =
    if hi == 0
    then (if ltb lo (2 ^ 32) then some lo else none)
    else (if lo == 0 && hi == 0x80000000 then some 0 else none)

abbrev plain_ops : KeyOps
plain_ops = record {
  dualnum = false;
  num2int = low_int;
  int2num = λ k. (k, 0);
  num_eq = words_eq;
  str_hash = λ s. 1;
}

and_parts : (a b : Bool) → (a && b) ≡ true → (a ≡ true) × (b ≡ true)
and_parts true b h = (refl, h)
and_parts false b h = cc

words_refl : (a : ℕ × ℕ) → words_eq a a ≡ true
words_refl (lo, hi) = ground arith

low_int_small : (lo hi k : ℕ) → low_int lo hi ≡ some k → k < 2 ^ 32
low_int_small lo hi k h = ground arith

words_bits : (a b : ℕ × ℕ) → words_eq a b ≡ true → a ≡ b
words_bits (lo, hi) (lo', hi') e =
    let (x, y) = and_parts (lo == lo') (hi == hi') e in cc (eqb→eq lo lo' x, eqb→eq hi hi' y)

plain_laws : KeyLaws plain_ops
plain_laws = record {
  eq_bits = λ a b p q e. words_bits a b e;
  int_plain = λ k h. (
    words_refl (k, 0),
    λ e. let high = ap (λ (n : ℕ × ℕ). n.1) e in absurd (omega (arith, high)),
  );
  int_num = λ k h. rw (lt→ltb k (2 ^ 32) h) refl;
  num_int = low_int_small;
  minus_zero = refl;
}

abbrev name_key : TKey
name_key = str (110 ∷ [])

abbrev other_key : TKey
other_key = str (111 ∷ [])

abbrev bare : Tab ℕ
bare = record { array = none ∷ some 5 ∷ []; hmask = 1; node = λ i. empty; freetop = 2 }

bare-IsHash : IsHash plain_ops bare
bare-IsHash =
    empty-IsHash plain_ops bare 1 refl (omega arith) (λ z. absurd (omega (arith, z))) (λ i h. refl)

abbrev named : Tab ℕ
named = record bare { node = put_key bare.node 1 name_key }

named-IsHash : IsHash plain_ops named
unfolding plain_key hashkey hash_of
named-IsHash =
    Placed-IsHash plain_ops bare (put_key bare.node 1 name_key) 1 2 name_key bare-IsHash
      (put_key-Placed bare.node 1 name_key) refl (λ z. absurd (omega (arith, z))) (omega arith) refl
      tt (λ i h e. cc (e)) (omega arith)

abbrev sample : Tab ℕ
sample = write_slot named (node_slot 1) (some 3)

sample-IsHash : IsHash plain_ops sample
unfolding plain_key
sample-IsHash =
    write_slot-IsHash plain_ops named named-IsHash (node_slot 1) (entry name_key) (some 3)
      (omega arith, refl)

abbrev never : Tab ℕ → TKey → Result (Tab ℕ × Slot)
never t key = err stuck

abbrev head : Option TKey → ℕ
head k = elim k [ some (str (c ∷ s)) ↦ c | _ ↦ 0 ]

other_good : IsStored plain_ops (plain_key other_key)
unfolding plain_key
other_good = tt

other_absent : (i : ℕ) → i ≤ 1 → key_at sample i ≢ some (plain_key other_key)
unfolding plain_key
other_absent zero h e = cc (e)
other_absent (suc zero) h e = let same : 110 ≡ 111 = ap head e in absurd (omega (arith, same))
other_absent (suc (suc i)) h e = absurd (omega arith)

other_room : HasRoom plain_ops sample other_key
unfolding plain_key find_free
other_room = inr (0, refl)

sample-IsOutside :
    (n i : ℕ) (k : TKey) → n ≤ 1 → key_at sample n ≡ some k → index_of plain_ops k ≡ some i → 2 ≤ i
unfolding plain_key
sample-IsOutside zero i k h e f = cc (e)
sample-IsOutside (suc zero) i k h e f =
    let same : k ≡ name_key = cc (e) in let g = rw same at f in cc (g)
sample-IsOutside (suc (suc n)) i k h e f = absurd (omega arith)

hashrot_x86-eq-hashrot_example : hashrot_x86 123456 987654 ≡ hashrot 123456 987654
hashrot_x86-eq-hashrot_example = hashrot_x86-eq-hashrot 123456 987654 (omega arith)

lj_tab_get-Holds_example :
    Gets plain_ops sample
      (lj_tab_get plain_ops sample (some name_key))
      (Holds plain_ops sample name_key)
lj_tab_get-Holds_example = lj_tab_get-Holds plain_ops sample plain_laws sample-IsHash name_key tt

newkey-IsEntered_example :
    Entered plain_ops never sample other_key sample-IsHash other_good other_absent
newkey-IsEntered_example =
    newkey-IsEntered plain_ops never sample other_key sample-IsHash other_good other_absent
      other_room

lj_tab_set-IsUpdate_example :
    (u : Tab ℕ) × ((s : Slot) × (lj_tab_set plain_ops never sample (some other_key) ≡ ok (u, s))
      × IsHash plain_ops (write_slot u s (some 9))
      × IsUpdate plain_ops sample (write_slot u s (some 9)) other_key 9)
lj_tab_set-IsUpdate_example =
    lj_tab_set-IsUpdate plain_ops never sample plain_laws sample-IsHash other_key 9 tt
      (λ absent. other_room)

lj_tab_len-IsBorder_example :
    (n : ℕ) × (lj_tab_len plain_ops sample ≡ ok n) × IsBorder plain_ops sample n
lj_tab_len-IsBorder_example =
    lj_tab_len-IsBorder plain_ops sample plain_laws sample-IsHash (omega arith, omega arith)

lj_tab_next-IsNext_example :
    (o : Option (Option TKey × ℕ)) × (lj_tab_next plain_ops sample (some (num 1 0)) ≡ ok o)
    × IsNext plain_ops sample 2 o
lj_tab_next-IsNext_example =
    lj_tab_next-IsNext plain_ops sample plain_laws sample-IsHash sample-IsOutside
      (omega arith, omega arith) 1 (num 1 0) 5 (omega arith) refl

traverse-entries_example : traverse plain_ops sample 5 none ≡ ok (entries_from plain_ops sample 4 0)
traverse-entries_example =
    traverse-entries plain_ops sample plain_laws sample-IsHash sample-IsOutside
      (omega arith, omega arith)

abbrev dirty : Memory ℕ
dirty = record {
  cells = λ i. some 77;
  nodes = λ i. record { key = some other_key; val = some 7; next = some 0 };
}

lj_tab_new-IsNew_example : (t : Tab ℕ) × (lj_tab_new dirty 3 1 ≡ ok t) × IsNew dirty 3 1 plain_ops t
lj_tab_new-IsNew_example = lj_tab_new-IsNew dirty 3 1 plain_ops (omega arith) (omega arith)

-- Three keys in the bin of the indices 3 and 4.
abbrev three_keys : Bins
three_keys b = if b == 1 then 3 else 0

bestasize-IsLargest_example :
    (sz na : ℕ) × (bestasize three_keys 3 ≡ ok (sz, na))
    × IsChosen three_keys sz na
    × IsLargest three_keys 28 sz
bestasize-IsLargest_example = bestasize-IsLargest three_keys 3 (omega arith) refl

lj_tab_dup-IsCopy_example : (u : Tab ℕ) × (lj_tab_dup dirty sample ≡ ok u) × IsCopy sample u
lj_tab_dup-IsCopy_example =
    lj_tab_dup-IsCopy plain_ops dirty sample sample-IsHash (omega arith, omega arith)
