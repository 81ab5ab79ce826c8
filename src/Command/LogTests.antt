-- ===== src/Command/LogTests.antt =====
-- Reads of a log that is a list in memory.
use ubervisor.Common.{
  ℕ, zero, suc, ◌+◌, ◌-◌, ◌≡◌, ◌≤◌, ◌<◌, refl, ap, false, List, [], none, some, arith, codes,
  length, take, drop, if◌then◌else◌, ltb,
}
use ubervisor.Common.Int.{ℤ, pos, negsuc, minus_one, neg}
use ubervisor.Command.Read.{
  Whence, Files, Posix, ReadRequest, seek, read_from, read_max, out_of_bounds,
}
use ubervisor.Command.Log.{read_from-short, read_from-bound}

-- A descriptor is the contents of a file and a position.
abbrev pub File : Type 0
File = List ℕ × ℕ

abbrev pub seek_to : File → ℤ → Whence → ℤ × File
seek_to (x, p) (pos n) Whence.seek_set = (pos n, (x, n))
seek_to (x, p) (negsuc n) Whence.seek_set = (minus_one, (x, p))
seek_to (x, p) (pos n) Whence.seek_end = (pos (length x + n), (x, length x + n))
seek_to (x, p) (negsuc n) Whence.seek_end =
    if ltb (length x) (suc n)
    then (minus_one, (x, p))
    else (pos (length x - suc n), (x, length x - suc n))

abbrev pub in_memory : Files
in_memory = record {
  Fd = File;
  open_file = λ name. none;
  lseek = seek_to;
  read_file = λ fd n. (some (take n (drop fd.1 fd.0)), (fd.0, fd.1 + n));
}

seek_back :
    (fd : File) (n : ℕ)
    → n ≤ length fd.0
    → ((seek_to fd (neg n) Whence.seek_end).0 ≡ pos (length fd.0 - n))
      × ((seek_to fd (neg n) Whence.seek_end).1.1 ≡ length fd.0 - n)
seek_back (x, p) zero h = (ap pos (omega arith), omega arith)
seek_back (x, p) (suc n) h = (ground arith, ground arith)

seek_too_far :
    (fd : File) (n : ℕ) → length fd.0 < n → seek_to fd (neg n) Whence.seek_end ≡ (minus_one, fd)
seek_too_far (x, p) zero h = absurd (omega arith)
seek_too_far (x, p) (suc n) h = ground arith

seek_keeps : (fd : File) (off : ℤ) (whence : Whence) → (seek_to fd off whence).1.0 ≡ fd.0
seek_keeps (x, p) (pos n) Whence.seek_set = refl
seek_keeps (x, p) (negsuc n) Whence.seek_set = refl
seek_keeps (x, p) (pos n) Whence.seek_end = refl
seek_keeps (x, p) (negsuc n) Whence.seek_end = ground arith

abbrev file_laws : Posix in_memory
file_laws = record {
  contents = λ fd. fd.0;
  position = λ fd. fd.1;
  lseek-set = λ fd n. (refl, refl);
  lseek-end = seek_back;
  lseek-before = seek_too_far;
  lseek-contents = seek_keeps;
  read-contents = λ fd n x e. ground arith;
}

abbrev file : File
file = (codes "one two", 0)

read_offset : read_from in_memory file (pos 4) 2 ≡ some (codes "tw", pos 4, pos 7)
unfolding read_from seek
read_offset = refl

read_end : read_from in_memory file (negsuc 0) 3 ≡ some (codes "two", pos 4, pos 7)
unfolding read_from seek
read_end = refl

-- A request for more than there is.
read_short : read_from in_memory file (negsuc 0) 1024 ≡ some ([], minus_one, pos 7)
unfolding read_from seek
read_short = refl

read_from-short_example : (codes "" ≡ []) × (minus_one ≡ minus_one)
read_from-short_example =
    read_from-short in_memory file_laws file 0 1024 [] minus_one (pos 7) (omega arith) read_short

abbrev request : ReadRequest
request = record { name = codes "web"; stream = pos 1; offset = pos 4; bytes = pos 2; inst = pos 0 }

in_bounds : out_of_bounds request ≡ false
unfolding out_of_bounds
in_bounds = refl

read_from-bound_example : length (codes "tw") ≤ read_max
read_from-bound_example =
    read_from-bound in_memory file_laws request file (codes "tw") (pos 4) (pos 7) in_bounds
      read_offset
