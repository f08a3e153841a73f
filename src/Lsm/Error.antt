-- ===== src/Lsm/Error.antt =====
-- scry-lsm/src/error.rs: the errors of the engine. `Poisoned` follows a panic of another thread.
use scry_index.Lsm.Sstable.Reader.{IoError, IoResult}
use scry_index.Lsm.Sstable.Reader

pub data Error : Type 0 where
  io : IoError → Error
  corruption : Error
  poisoned : Error

pub data Result (A : Type 0) : Type 0 where
  ok : A → Result A
  err : Error → Result A

infixl 5 ◌>>=◌
abbrev pub ◌>>=◌ : {A B : Type 0} → Result A → (A → Result B) → Result B
ok a >>= f = f a
err e >>= f = err e

-- `?` on an I/O result: `From<io::Error>`
abbrev pub from_io : {A : Type 0} → IoResult A → Result A
from_io (Reader.ok a) = ok a
from_io (Reader.err e) = err (io e)
