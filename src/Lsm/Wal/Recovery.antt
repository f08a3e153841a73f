-- ===== src/Lsm/Wal/Recovery.antt =====
-- What `recover` reads from a log that was cut at any byte.
use scry_index.Prelude.{
  ℕ, zero, suc, ◌+◌, ◌-◌, ◌^◌, ◌<◌, List, [], ◌∷◌, ◌++◌, ◌≡◌, refl, sym, ap, ◌∙◌, arith, length,
  length-append, take, leb, if◌then◌else◌,
}
use mathlib.Core.List.{append_assoc, append-nil}
use scry_index.Lsm.Bytes.{Bytes, le32, length_prefixed, read_length_prefixed-take}
use scry_index.Lsm.Wal.{WalRecord, put, delete, ok, push_record, push_front, append, recover_loop}

-- the log after a list of calls
unfoldable pub write_all : Bytes → List WalRecord → Bytes
write_all file [] = file
write_all file (r ∷ rs) = write_all (append file r) rs

-- lengths that a `u32` holds
abbrev pub IsWritable : WalRecord → Type 0
IsWritable (put key value) = (length key < 2 ^ 32) × (length value < 2 ^ 32)
IsWritable (delete key) = length key < 2 ^ 32

abbrev pub AllWritable : List WalRecord → Type 0
AllWritable [] = Unit {0}
AllWritable (r ∷ rs) = IsWritable r × AllWritable rs

abbrev pub size : WalRecord → ℕ
size (put key value) = 9 + length key + length value
size (delete key) = 9 + length key

-- the records that lie whole in the first `n` bytes
unfoldable pub whole : ℕ → List WalRecord → List WalRecord
whole n [] = []
whole n (r ∷ rs) = let rest = whole (n - size r) rs in if leb (size r) n then r ∷ rest else []

encode : WalRecord → Bytes
encode (put key value) = 1 ∷ (length_prefixed key ++ length_prefixed value)
encode (delete key) = 2 ∷ (length_prefixed key ++ length_prefixed [])

append_lem : (file : Bytes) (r : WalRecord) → append file r ≡ file ++ encode r
unfolding append encode
append_lem file (put key value) = refl
append_lem file (delete key) = refl

encode_all : List WalRecord → Bytes
encode_all [] = []
encode_all (r ∷ rs) = encode r ++ encode_all rs

write_all_lem : (file : Bytes) (rs : List WalRecord) → write_all file rs ≡ file ++ encode_all rs
unfolding write_all encode_all
write_all_lem file [] = sym (append-nil file)
write_all_lem file (r ∷ rs) = rw (write_all_lem (append file r) rs, append_lem, append_assoc)

-- One record of a cut file.
recover_step :
    (fuel : ℕ) (type : ℕ) (key value rest : Bytes) (n : ℕ)
    → length key < 2 ^ 32
    → length value < 2 ^ 32
    → recover_loop
        (suc fuel)
        (take (suc n) (type ∷ (length_prefixed key ++ (length_prefixed value ++ rest))))
      ≡ (if leb (8 + length key + length value) n
          then push_record type key value
              (recover_loop fuel (take (n - (8 + length key + length value)) rest))
          else ok [])
unfolding recover_loop
recover_step fuel type key value rest n hk hv = ground (
  arith,
  read_length_prefixed-take key (length_prefixed value ++ rest) n hk,
  read_length_prefixed-take value rest (n - (4 + length key)) hv,
)

encode_append :
    (r : WalRecord) (rest : Bytes) (fuel n : ℕ)
    → IsWritable r
    → recover_loop (suc fuel) (take (suc n) (encode r ++ rest)) ≡ (
        if leb (size r) (suc n)
        then push_front r (recover_loop fuel (take (suc n - size r) rest))
        else ok [])
unfolding encode
encode_append (put key value) rest fuel n h =
    rw append_assoc (ground (arith, recover_step fuel 1 key value rest n h.0 h.1))
encode_append (delete key) rest fuel n h =
    rw append_assoc (ground (arith, recover_step fuel 2 key [] rest n h))

size_pos : (r : WalRecord) → 0 < size r
size_pos (put key value) = omega arith
size_pos (delete key) = omega arith

recover_cut :
    (rs : List WalRecord) (fuel n : ℕ)
    → AllWritable rs
    → n < fuel
    → recover_loop fuel (take n (encode_all rs)) ≡ ok (whole n rs)
unfolding whole encode_all
recover_cut rs zero n h room = absurd (omega arith)
recover_cut [] (suc fuel) zero h room = unfold recover_loop in refl
recover_cut [] (suc fuel) (suc n) h room = unfold recover_loop in refl
recover_cut (r ∷ rs) (suc fuel) zero h room = unfold recover_loop in ground (arith, size_pos r)
recover_cut (r ∷ rs) (suc fuel) (suc n) h room = ground (
  arith,
  encode_append r (encode_all rs) fuel n h.0,
  size_pos r,
  recover_cut rs fuel (suc n - size r) h.1,
)

-- Recovery of a log of records with lengths that a `u32` holds, cut after any number `n` of bytes,
-- with fuel above `n`, gives exactly the records that lie whole in those bytes, in their order,
-- and never a corruption.
pub recover_loop_lem :
    (rs : List WalRecord) (fuel n : ℕ)
    → AllWritable rs
    → n < fuel
    → recover_loop fuel (take n (write_all [] rs)) ≡ ok (whole n rs)
recover_loop_lem rs fuel n h room = rw (write_all_lem [] rs) (recover_cut rs fuel n h room)

take_all : (xs : Bytes) → take (length xs) xs ≡ xs
take_all [] = refl
take_all (x ∷ xs) = ap (λ (t : Bytes). x ∷ t) (take_all xs)

length-encode : (r : WalRecord) → length (encode r) ≡ size r
unfolding encode length_prefixed le32
length-encode (put key value) = omega (arith, length-append key (length_prefixed value))
length-encode (delete key) = omega (arith, length-append key (length_prefixed []))

whole_all : (rs : List WalRecord) → whole (length (encode_all rs)) rs ≡ rs
unfolding whole encode_all
whole_all [] = refl
whole_all (r ∷ rs) =
    ground (arith, length-append (encode r) (encode_all rs), length-encode r, whole_all rs)

-- With fuel above the length of the log, every record of a list with lengths that a `u32` holds,
-- appended in order, comes back in order from the log that was not cut.
pub recover_loop-write_all :
    (rs : List WalRecord) (fuel : ℕ)
    → AllWritable rs
    → length (write_all [] rs) < fuel
    → recover_loop fuel (write_all [] rs) ≡ ok rs
recover_loop-write_all rs fuel h room =
    let bytes : write_all [] rs ≡ encode_all rs = write_all_lem [] rs in
    let fits : length (encode_all rs) < fuel = rw bytes at room in
    rw bytes (
      ap (recover_loop fuel) (sym (take_all (encode_all rs)))
      ∙ recover_cut rs fuel (length (encode_all rs)) h fits
      ∙ ap ok (whole_all rs))
