-- ===== src/Tests/Sample.antt =====
-- Integers in place of `f64`, numbers as keys, and two trees. The model input of a key tells only
-- whether it is below 100, as `f64` tells large keys apart only coarsely.
use scry_index.Prelude.{
  ℕ, ◌+◌, ◌-◌, ◌^◌, ◌*◌, ◌/◌, true, false, none, some, ◌≡◌, refl, arith, ltb, ◌==◌, ==_iff,
  if◌then◌else◌,
}
use scry_index.Prelude.Int.{
  ℤ, pos, pos_part, neg_part, sub_ℕ, ◌+ℤ◌, ◌-ℤ◌, ltb_ℤ, ◌≤ℤ◌, IsI128, -ℤ_parts,
}
use scry_index.Key.{F64, Key}
use scry_index.Config.{Config}
use scry_index.Node.{Node, node, nil, cons, slot_empty, slot_data, slot_child, slot_tombstone}
use scry_index.Node.Ready.{IsReady}
use scry_index.Node.Count.{max_depth}
use scry_index.Map.{LearnedMap}
use scry_index.Insert.Total.{Separates}

abbrev pub mul_ℤ : ℤ → ℤ → ℤ
mul_ℤ a b =
    sub_ℕ (pos_part a * pos_part b + neg_part a * neg_part b)
      (pos_part a * neg_part b + neg_part a * pos_part b)

-- towards zero, for a positive divisor
abbrev pub div_ℤ : ℤ → ℤ → ℤ
div_ℤ a b = sub_ℕ (pos_part a / pos_part b) (neg_part a / pos_part b)

instance abbrev pub integers : F64 ℤ
integers = record {
  zero = pos 0;
  one = pos 1;
  epsilon = pos 1;
  of_usize = pos;
  add = ◌+ℤ◌;
  sub = ◌-ℤ◌;
  mul = mul_ℤ;
  div = div_ℤ;
  max = λ a b. if ltb_ℤ a b then b else a;
  min = λ a b. if ltb_ℤ a b then a else b;
  neg = λ a. pos 0 -ℤ a;
  abs = λ a. pos (pos_part a + neg_part a);
  round = λ a. a;
  ceil = λ a. a;
  mul_add = λ a b c. mul_ℤ a b +ℤ c;
  lt = ltb_ℤ;
  to_usize = pos_part;
}

pub ltb_irrefl : (a : ℕ) → ltb a a ≡ false
ltb_irrefl a = ground arith

pub ltb_trans : (a b c : ℕ) → ltb a b ≡ true → ltb b c ≡ true → ltb a c ≡ true
ltb_trans a b c h h' = ground arith

pub ltb_total : (a b : ℕ) → ltb a b ≡ false → ltb b a ≡ false → a ≡ b
ltb_total a b h h' = ground arith

-- the number, as far as an i128 goes
abbrev pub ordinal : ℕ → ℤ
ordinal n = if ltb n (2 ^ 127) then pos n else pos (2 ^ 127 - 1)

pub ordinal-IsI128 : (a : ℕ) → IsI128 (ordinal a)
ordinal-IsI128 a = ground arith

pub ordinal_mono : (a b : ℕ) → ltb a b ≡ true → ordinal a ≤ℤ ordinal b
ordinal_mono a b h = ground arith

pub ordinals_near : (a b : ℕ) → IsI128 (ordinal b -ℤ ordinal a)
ordinals_near a b =
    ground (arith, ordinal-IsI128 a, ordinal-IsI128 b, -ℤ_parts (ordinal b) (ordinal a))

abbrev pub input : ℕ → ℤ
input n = if ltb n 100 then pos 0 else pos 1

instance abbrev pub coarse : Key ℤ ℕ
coarse = record {
  lt = ltb;
  eqb = ◌==◌;
  to_model_input = input;
  to_exact_ordinal = ordinal;
  eqb_iff = ==_iff;
  lt_irrefl = ltb_irrefl;
  lt_trans = ltb_trans;
  lt_total = ltb_total;
  ordinal_bounded = ordinal-IsI128;
  ordinal_mono = ordinal_mono;
}

-- Inputs that differ are 0 and 1, and the line goes from 0 to 3, across 1.
crosses :
    (lo hi : ℕ)
    → ltb lo hi ≡ true
    → integers.lt (integers.abs (input hi -ℤ input lo)) (pos 1) ≡ false
    → (ltb lo 100 ≡ true) × (ltb hi 100 ≡ false)
unfolding ◌-ℤ◌
crosses lo hi l far = ground arith

pub coarse-Separates : Separates integers coarse
unfolding ◌+ℤ◌ ◌-ℤ◌
coarse-Separates = record {
  round_down = λ j p inside h. ground arith;
  round_up = λ j p inside h. ground arith;
  crosses =
      λ lo hi l far. let (a, b) = crosses lo hi l far in rw (a, b) (1, omega arith, refl, refl);
  ordinals_fit = λ lo hi l same. ordinals_near lo hi;
}

-- a child that splits on the ordinal, and a root with every state but `WRITING`
abbrev pub leaf : Node ℤ ℕ ℕ
leaf =
    node (record { slope = pos 0; intercept = pos 0; midpoint = some (pos 6) }) none true 2 0
      (cons (slot_data 5 50) (cons slot_empty (cons slot_empty (cons (slot_data 7 70) nil))))

abbrev pub tree : Node ℤ ℕ ℕ
tree =
    node (record { slope = pos 1; intercept = pos 0; midpoint = none }) none true 1 1
      (cons (slot_child leaf)
        (cons (slot_data 150 1) (cons (slot_tombstone 3 9) (cons slot_empty nil))))

pub leaf-IsReady : IsReady leaf
leaf-IsReady = (omega arith, (tt, (tt, (tt, (tt, tt)))))

pub tree-IsReady : IsReady tree
tree-IsReady = (omega arith, (leaf-IsReady, (tt, (tt, (tt, tt)))))

pub tree_depth : max_depth tree ≡ 2
unfolding max_depth
tree_depth = refl

abbrev pub config : Config ℤ
config = record {
  expansion_factor = pos 2;
  auto_rebuild = false;
  rebuild_depth_threshold = 8;
  tombstone_ratio_threshold = pos 1;
  range_headroom = pos 0;
}

abbrev pub filled : LearnedMap ℤ ℕ ℕ
filled = record { root = tree; len = 3; config = config; next_root_rebuild = 64 }
