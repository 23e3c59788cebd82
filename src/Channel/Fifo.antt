-- ===== src/Channel/Fifo.antt =====
-- src/channel/fifo.h and fifo.cc: `Fifo`, the named pipe over which an agent and its worker wake each
-- other. The system calls are `FileOps`; a call that returns -1 gives `none`.
pub mod Order
use plug_in_ml.Base.{
  ℕ, zero, suc, ◌+◌, ◌-◌, ◌*◌, ◌/◌, ◌%◌, ◌^◌, Bool, Option, none, some, List, [], ◌∷◌, ◌++◌, ℤ, pos,
  negsuc, length, drop, get_or, ltb, if◌then◌else◌,
}
use plug_in_ml.Message.{Addr}

-- `O_RDONLY`, and `O_CREAT | O_WRONLY`.
pub data OpenFlag : Type 0 where
  read_only : OpenFlag
  create_write_only : OpenFlag

pub record FileOps (Os : Type 0) : Type 0 where
  pub open_file : Addr → OpenFlag → Os → ℤ × Os
  pub read : ℤ → ℕ → Os → Option (List ℕ) × Os
  pub write : ℤ → List ℕ → Os → Option ℕ × Os
  pub close : ℤ → Os → Os

pub record Fifo : Type 0 where
  pub filename : Addr
  pub is_reader : Bool
  pub fd : ℤ

-- An `int` in memory: the 32 bits of its two's complement, the lowest byte first.
unfoldable pub word_of : ℤ → ℕ
word_of (pos n) = n % 2 ^ 32
word_of (negsuc n) = 2 ^ 32 - 1 - n % 2 ^ 32

unfoldable pub int_bytes : ℤ → List ℕ
unfolding word_of
int_bytes sig =
    let w = word_of sig in w % 256 ∷ w / 256 % 256 ∷ w / 65536 % 256 ∷ w / 16777216 % 256 ∷ []

unfoldable pub bytes_word : List ℕ → ℕ
bytes_word [] = 0
bytes_word (b ∷ bytes) = b + 256 * bytes_word bytes

unfoldable pub bytes_int : List ℕ → ℤ
unfolding bytes_word
bytes_int bytes =
    let w = bytes_word bytes in if ltb w (2 ^ 31) then pos w else negsuc (2 ^ 32 - 1 - w)

-- What `read` returns, over the first bytes of `sig`.
unfoldable pub overwrite : List ℕ → List ℕ → List ℕ
overwrite bytes memory = bytes ++ drop (length bytes) memory

unfoldable pub initialize : Addr → Bool → Fifo → Fifo
initialize filename is_reader f = record f { filename = filename; is_reader = is_reader }

module _ {Os : Type 0} (ops : FileOps Os) where
  unfoldable pub open_fifo : Fifo → Os → Fifo × Os
  open_fifo f os =
      let opened =
        ops.open_file f.filename
          (if f.is_reader then OpenFlag.read_only else OpenFlag.create_write_only) os in
      (record f { fd = opened.0 }, opened.1)

  -- `Wait`: `sig` begins as 0, so that is what a read without bytes gives.
  unfoldable pub wait : Fifo → Os → ℤ × Os
  unfolding overwrite int_bytes
  wait f os =
      let got = ops.read f.fd 4 os in
      (
        elim got.0 [ none ↦ pos 0 | some bytes ↦ bytes_int (overwrite bytes (int_bytes (pos 0))) ],
        got.1,
      )

  -- `Signal`, whose result of `write` nobody looks at.
  unfoldable pub signal : Fifo → ℤ → Os → Os
  signal f sig os = (ops.write f.fd (int_bytes sig) os).1

  unfoldable pub close_fifo : Fifo → Os → Os
  close_fifo f os = ops.close f.fd os
