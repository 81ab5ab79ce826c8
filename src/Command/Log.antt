-- ===== src/Command/Log.antt =====
-- What c_read of cmd_server.c reads.
use ubervisor.Common.{
  ℕ, ◌-◌, ◌≤◌, ◌<◌, ◌≡◌, refl, sym, ap, ◌∙◌, inl, inr, arith, Bool, false, ◌||◌, List, [], some,
  Bool-cases, Option-cases, Str, length, take, drop, length-take, length-drop, drop-length,
  take_short, le→ltb,
}
use ubervisor.Common.Int.{ℤ, pos, negsuc, lt_ℤ, to_ℕ, minus_one, neg}
use ubervisor.Json.{JsonC}
use ubervisor.Server.{Server}
use ubervisor.Server.Alive.{IsAlive, emit-IsAlive}
use ubervisor.Config.{ChildConfig}
use ubervisor.Command.{Disk}
use ubervisor.Command.Read.{
  Files, Posix, Whence, ReadRequest, seek, read_from, read_max, out_of_bounds, c_read, read_group,
  read_log,
}
use ubervisor.Command.Groups.{said}

parts : (a b : List ℕ × ℤ × ℤ) → some a ≡ some b → (a.0 ≡ b.0) × (a.1 ≡ b.1) × (a.2 ≡ b.2)
parts a b e =
    let eq : a ≡ b = cc e in
    (
      ap (λ (t : List ℕ × ℤ × ℤ). t.0) eq,
      ap (λ (t : List ℕ × ℤ × ℤ). t.1) eq,
      ap (λ (t : List ℕ × ℤ × ℤ). t.2) eq,
    )

few_bytes : (b : ℤ) → (lt_ℤ b (pos 0) || lt_ℤ (pos read_max) b) ≡ false → to_ℕ b ≤ read_max
few_bytes (pos a) h = ground arith
few_bytes (negsuc a) h = ground arith

module _ (files : Files) (posix : Posix files) where
  open files use {Fd, lseek, read_file}
  open posix use {
    contents, position, lseek-set, lseek-end, lseek-before, lseek-contents, read-contents,
  }

  -- The two seeks.
  abbrev sought : Fd → ℤ → ℕ → ℤ × Fd
  sought fd off bytes = seek files (lseek fd (pos 0) Whence.seek_end).1 off bytes

  contents-sought : (fd : Fd) (off : ℤ) (bytes : ℕ) → contents (sought fd off bytes).1 ≡ contents fd
  unfolding seek
  contents-sought fd off bytes =
      let first = lseek-contents fd (pos 0) Whence.seek_end in
      let end = lseek fd (pos 0) Whence.seek_end in
      elim (Bool-cases (lt_ℤ off (pos 0))) [
        | inl back ↦ rw back (lseek-contents end.1 (neg bytes) Whence.seek_end ∙ first)
        | inr forth ↦ rw forth (lseek-contents end.1 off Whence.seek_set ∙ first)
      ]

  -- What a read that succeeds gets after a seek.
  got_after :
      (fd : Fd) (off : ℤ) (bytes : ℕ) (x : List ℕ) (o size : ℤ)
      → read_from files fd off bytes ≡ some (x, o, size)
      → (x ≡ take bytes (drop (position (sought fd off bytes).1) (contents fd)))
        × (o ≡ (sought fd off bytes).0)
        × (size ≡ pos (length (contents fd)))
  unfolding read_from
  got_after fd off bytes x o size e =
      let at = sought fd off bytes in
      elim (Option-cases (read_file at.1 bytes).0) [
        | inl failed ↦ absurd (cc (failed, e))
        | inr (y, done) ↦
            let got : some (y, at.0, (lseek fd (pos 0) Whence.seek_end).0)
                ≡ read_from files fd off bytes =
              rw (read_from, done) refl in
            let text = read-contents at.1 bytes y done in
            let size_is = (lseek-end fd 0 (omega arith)).0 in
            let same = contents-sought fd off bytes in
            let (xy, oo, ss) =
              parts (y, at.0, (lseek fd (pos 0) Whence.seek_end).0) (x, o, size) (got ∙ e) in
            (
              sym xy ∙ text ∙ ap (λ z. take bytes (drop (position at.1) z)) same,
              sym oo,
              sym ss ∙ size_is ∙ ap pos (omega arith),
            )
      ]

  sought-set :
      (fd : Fd) (n bytes : ℕ)
      → sought fd (pos n) bytes ≡ lseek (lseek fd (pos 0) Whence.seek_end).1 (pos n) Whence.seek_set
  unfolding seek
  sought-set fd n bytes = rw (le→ltb n 0 (omega arith)) refl

  -- Where c_read is asked for an offset that is not negative, and its read succeeds, it gets as many of
  -- the bytes of the log from that offset on as were asked for and are there, the same offset and the
  -- size of the log. The laws of lseek and read are those of a regular file.
  pub read_from-offset :
      (fd : Fd) (n bytes : ℕ) (x : List ℕ) (o size : ℤ)
      → read_from files fd (pos n) bytes ≡ some (x, o, size)
      → (x ≡ take bytes (drop n (contents fd))) × (o ≡ pos n) × (size ≡ pos (length (contents fd)))
  unfolding seek
  read_from-offset fd n bytes x o size e =
      let end = (lseek fd (pos 0) Whence.seek_end).1 in
      let (text, at, fsize) = got_after fd (pos n) bytes x o size e in
      let (o_is, p_is) = lseek-set end n in
      (
        text
            ∙ ap (λ p. take bytes (drop p (contents fd)))
                (ap (λ (r : ℤ × Fd). position r.1) (sought-set fd n bytes) ∙ p_is),
        at ∙ ap (λ (r : ℤ × Fd). r.0) (sought-set fd n bytes) ∙ o_is,
        fsize,
      )

  -- Where c_read is asked for a negative offset and for no more bytes than the log has, and its read
  -- succeeds, it gets the last so many bytes of the log and the offset at which they begin.
  pub read_from-end :
      (fd : Fd) (n bytes : ℕ) (x : List ℕ) (o size : ℤ)
      → bytes ≤ length (contents fd)
      → read_from files fd (negsuc n) bytes ≡ some (x, o, size)
      → (x ≡ drop (length (contents fd) - bytes) (contents fd))
        × (length x ≡ bytes)
        × (o ≡ pos (length (contents fd) - bytes))
  unfolding seek
  read_from-end fd n bytes x o size enough e =
      let end = (lseek fd (pos 0) Whence.seek_end).1 in
      let same = lseek-contents fd (pos 0) Whence.seek_end in
      let (text, at, fsize) = got_after fd (negsuc n) bytes x o size e in
      let (o_is, p_is) = lseek-end end bytes (rw same enough) in
      let size_is = ap length same in
      let all : length (drop (length (contents fd) - bytes) (contents fd)) ≡ bytes =
        omega (arith, length-drop (length (contents fd) - bytes) (contents fd), enough) in
      let x_is : x ≡ drop (length (contents fd) - bytes) (contents fd) =
        text
        ∙ ap (λ p. take bytes (drop p (contents fd))) (p_is ∙ ap (λ l. l - bytes) size_is)
        ∙ take_short (drop (length (contents fd) - bytes) (contents fd)) bytes
            (omega (arith, all)) in
      (x_is, ap length x_is ∙ all, at ∙ o_is ∙ ap (λ l. pos (l - bytes)) size_is)

  -- Where c_read is asked for a negative offset and for more bytes than the log has, and its read
  -- succeeds, it gets nothing and the offset -1: the seek to before the start fails and leaves the
  -- position at the end. The client's default of 1024 bytes so shows nothing of a shorter log.
  pub read_from-short :
      (fd : Fd) (n bytes : ℕ) (x : List ℕ) (o size : ℤ)
      → length (contents fd) < bytes
      → read_from files fd (negsuc n) bytes ≡ some (x, o, size)
      → (x ≡ []) × (o ≡ minus_one)
  unfolding seek
  read_from-short fd n bytes x o size short e =
      let end = (lseek fd (pos 0) Whence.seek_end).1 in
      let same = lseek-contents fd (pos 0) Whence.seek_end in
      let (text, at, fsize) = got_after fd (negsuc n) bytes x o size e in
      let fails = lseek-before end bytes (rw same short) in
      let stays : position (sought fd (negsuc n) bytes).1 ≡ length (contents fd) =
        ap (λ (r : ℤ × Fd). position r.1) fails ∙ (lseek-end fd 0 (omega arith)).1 ∙ omega arith in
      (
        text
            ∙ ap (λ p. take bytes (drop p (contents fd))) stays
            ∙ rw (drop-length (contents fd)) (take_short [] bytes (omega arith)),
        at ∙ ap (λ (r : ℤ × Fd). r.0) fails,
      )

  -- What c_read reads for a request within its bounds leaves room for the NUL in its buffer of 16384
  -- bytes, wherever the log is read from.
  pub read_from-bound :
      (q : ReadRequest) (fd : Fd) (x : List ℕ) (o size : ℤ)
      → out_of_bounds q ≡ false
      → read_from files fd q.offset (to_ℕ q.bytes) ≡ some (x, o, size)
      → length x ≤ read_max
  unfolding out_of_bounds
  read_from-bound q fd x o size fine e =
      let (text, at, fsize) = got_after fd q.offset (to_ℕ q.bytes) x o size e in
      let few : to_ℕ q.bytes ≤ read_max = few_bytes q.bytes (ground arith) in
      omega (
        arith,
        ap length text,
        length-take (to_ℕ q.bytes)
            (drop (position (sought fd q.offset (to_ℕ q.bytes)).1) (contents fd)),
        few,
      )

module _ (files : Files) (lib : JsonC) (auto_dump : Bool) (disk : Disk) where
  read_group-IsAlive :
      (q : ReadRequest) (conf : ChildConfig) (s : Server)
      → IsAlive s
      → IsAlive (read_group files lib auto_dump disk q conf s)
  unfolding read_group read_log
  read_group-IsAlive q conf s alive = grind (arith, said lib auto_dump disk s alive, emit-IsAlive)

  pub c_read-IsAlive :
      (buf : Str) (s : Server) → IsAlive s → IsAlive (c_read files lib auto_dump disk buf s).1
  unfolding c_read
  c_read-IsAlive buf s alive = grind (arith, said lib auto_dump disk s alive, read_group-IsAlive)
