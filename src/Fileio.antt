-- ===== src/Fileio.antt =====
-- extensions/stx_fileio.c: a file is read by a child process, which gets its requests through one pipe
-- and answers through another. The control pipe carries one request at a time to the child; a
-- request of more bytes than the child's buffer has is not considered.
pub mod Answers
use st_win.Prelude.{
  ℕ, zero, suc, ◌+◌, ◌^◌, ◌<◌, ◌≡◌, ◌==◌, ltb, leb, Bool, true, false, ◌&&◌, Option, none, some,
  List, [], ◌∷◌, ◌++◌, length, if◌then◌else◌,
}
use st_win.Prelude.Int.{ℤ, pos, negsuc}
use st_win.Io.Transfer.{take, drop}

-- The system calls on a descriptor of type `F`: `lseek` from the beginning, and `read`.
pub record Calls (F : Type 0) : Type 0 where
  pub lseek : ℕ → F → Option F
  pub read : ℕ → F → Option (F × List ℕ)

-- What they do on a file with the bytes `file`.
pub record Regular {F : Type 0} (calls : Calls F) (file : List ℕ) (position : F → ℕ) : Type 0 where
  pub seek : (n : ℕ) (f : F) → (g : F) × (calls.lseek n f ≡ some g) × (position g ≡ n)
  pub reads :
      (n : ℕ) (f : F)
      → let bytes = take n (drop (position f) file) in
        (g : F) × (calls.read n f ≡ some (g, bytes)) × (position g ≡ position f + length bytes)

-- How a `ssize_t` stands in memory. `decode` is the variable after its first bytes have been
-- overwritten, where it was -1.
pub record Words : Type 0 where
  pub encode : ℕ → List ℕ
  pub decode : List ℕ → ℤ

pub record Faithful (words : Words) : Type 0 where
  pub size : (n : ℕ) → length (words.encode n) ≡ 8
  pub word : (n : ℕ) → n < 2 ^ 63 → words.decode (words.encode n) ≡ pos n
  pub untouched : words.decode [] ≡ negsuc 0

-- The child: its descriptor, and its variable `pos`.
pub record Child (F : Type 0) : Type 0 where
  pub fd : F
  pub pos : ℕ

-- `fileio_data_t`: the child unless it has ended, and what stands in the pipe of its answers.
pub record Channel (F : Type 0) : Type 0 where
  pub child : Option (Child F)
  pub out : List ℕ

module _ {F : Type 0} (calls : Calls F) (words : Words) where
  -- `if (pos != cb.offset) pos = lseek(fd, cb.offset, SEEK_SET);`
  unfoldable pub seek_to : ℕ → Child F → Option (Child F)
  seek_to offset c = if c.pos == offset then some c else elim (calls.lseek offset c.fd) [
    | none ↦ none
    | some fd ↦ some (record { fd = fd; pos = offset })
  ]

  -- A round of the child of `file_reader`: its next state and what it writes, or none if it ends.
  unfoldable pub answer : ℕ → ℕ → Child F → Option (Child F × List ℕ)
  unfolding seek_to
  answer offset nbytes c = if nbytes == 0 then none else elim (seek_to offset c) [
    | none ↦ none
    | some c₁ ↦ elim (calls.read nbytes c₁.fd) [
      | none ↦ none
      | some (fd, bytes) ↦
          some
            (record { fd = fd; pos = c₁.pos + length bytes }, words.encode (length bytes) ++ bytes)
    ]
  ]

  -- The child gets a request.
  unfoldable pub send : ℕ → ℕ → Channel F → Channel F
  send offset nbytes ch = elim ch.child [
    | none ↦ ch
    | some c ↦ elim (answer offset nbytes c) [
      | none ↦ record { child = none; out = ch.out }
      | some (c', written) ↦ record { child = some c'; out = ch.out ++ written }
    ]
  ]

  -- `st_read` from the pipe: what is there, up to `n` bytes; -1 if nothing comes in time.
  unfoldable pub read_out : ℕ → Bool → Channel F → Option (Channel F × List ℕ)
  read_out n timely ch =
      if timely
      then some (record { child = ch.child; out = drop n ch.out }, take n ch.out)
      else none

  -- `0 < ret && ret <= nbytes`
  abbrev pub accepts : ℤ → ℕ → Option ℕ
  accepts (pos n) nbytes = if ltb 0 n && leb n nbytes then some n else none
  accepts (negsuc n) nbytes = none

  -- The end of `stx_file_read`: the data, of which `ret` bytes are there.
  unfoldable pub read_data : Bool → ℕ → Channel F → Channel F × ℤ × List ℕ
  read_data timely ret ch = elim (read_out ret timely ch) [
    | none ↦ (ch, negsuc 0, [])
    | some (ch', bytes) ↦ (ch', pos (length bytes), bytes)
  ]

  unfoldable pub read_reply : Bool → ℕ → List ℕ → Channel F → Channel F × ℤ × List ℕ
  read_reply timely nbytes word ch =
      let ret = words.decode word in
      if length word == 8
      then elim (accepts ret nbytes) [ none ↦ (ch, ret, []) | some n ↦ read_data timely n ch ]
      else (ch, ret, [])

  -- `stx_file_read` once it has the channel; the flags say whether the size and the data come in time.
  unfoldable pub file_read_on : ℕ → ℕ → Bool → Bool → Channel F → Channel F × ℤ × List ℕ
  unfolding send
  file_read_on offset nbytes first second ch =
      let ch₁ = send offset nbytes ch in
      elim (read_out 8 first ch₁) [
        | none ↦ (ch₁, negsuc 0, [])
        | some (ch₂, word) ↦ read_reply second nbytes word ch₂
      ]

  -- `get_fileio_data`: the stored channel, or a new one, with the success of `fork` and the descriptor.
  unfoldable pub get_fileio_data : Bool → F → Option (Channel F) → Option (Channel F)
  get_fileio_data forked fd (some ch) = some ch
  get_fileio_data forked fd none =
      if forked
      then some (record { child = some (record { fd = fd; pos = 0 }); out = [] })
      else none

  -- `stx_file_read`
  unfoldable pub file_read :
      ℕ → ℕ → Bool → Bool → Bool → F → Option (Channel F) → Option (Channel F) × ℤ × List ℕ
  unfolding file_read_on get_fileio_data
  file_read offset nbytes forked first second fd stored = elim (get_fileio_data forked fd stored) [
    | none ↦ (none, negsuc 0, [])
    | some ch ↦
        let (ch', ret, bytes) = file_read_on offset nbytes first second ch in (some ch', ret, bytes)
  ]

  -- `fileio_data_destructor`: a request of length 0, then both ends are closed.
  unfoldable pub fileio_data_destructor : Channel F → Channel F
  unfolding send
  fileio_data_destructor ch = send 0 0 ch
