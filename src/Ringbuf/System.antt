-- ===== src/Ringbuf/System.antt =====
-- src/ringbuf.c: a writer and a reader that run at once, and what a read that succeeds has read.
use ylib.Base.{ℕ, ◌+◌, ◌*◌, ◌/◌, ◌%◌, ◌≤◌, ◌<◌, ◌≡◌, ◌≢◌, ltb, ◌==◌, if◌then◌else◌, u32_mod}
use ylib.Ringbuf.{Ringbuf, set, Writer, write_step, Reader, read_step}

-- The shared memory and the two threads, with a record of what has happened: how often the version
-- of each slot was increased, the data of the n-th write to each slot (of zeros, for n = 0), and
-- the number of increases at which the reader read the version.
pub record System : Type 0 where
  pub rb : Ringbuf
  pub writer : Writer
  pub reader : Reader
  pub bumps : ℕ → ℕ
  pub history : ℕ → ℕ → ℕ → ℕ
  pub seen : ℕ

-- what a step of the writer adds to the record
abbrev pub written : (ℕ → ℕ) → System → System
written data_in s = elim s.writer [
  | Writer.idle ↦ record s {
    bumps = set s.bumps s.rb.wsi (s.bumps s.rb.wsi + 1);
    history = λ i n.
        if i == s.rb.wsi
        then (if n == s.bumps i / 2 + 1 then data_in else s.history i n)
        else s.history i n;
  }
  | Writer.copying k _ ↦
      if ltb k s.rb.user_slotsz
      then s
      else record s { bumps = set s.bumps s.rb.wsi (s.bumps s.rb.wsi + 1) }
  | Writer.published ↦ s
]

-- what a step of the reader adds to it
abbrev pub looked : System → System
looked s = elim s.reader [ Reader.indexed i ↦ record s { seen = s.bumps i } | _ ↦ s ]

unfoldable pub by_writer : (ℕ → ℕ) → System → System
unfolding write_step
by_writer data_in s =
    let (rb, writer) = write_step data_in s.rb s.writer in
    record (written data_in s) { rb = rb; writer = writer }

unfoldable pub by_reader : System → System
unfolding read_step
by_reader s = record (looked s) { reader = read_step s.rb s.reader }

-- Fewer than 2 ^ 31 writes to the slot take place in the course of one read.
abbrev pub InWindow : System → Type 0
InWindow s = elim s.reader [ Reader.reading i _ _ _ ↦ s.bumps i < s.seen + u32_mod | _ ↦ Unit ]

pub data Step : System → System → Type 0 where
  write : (data_in : ℕ → ℕ) → (s : System) → Step s (by_writer data_in s)
  read : (s : System) → InWindow s → Step s (by_reader s)

-- any number of steps
pub data Steps : System → System → Type 0 where
  stay : {s : System} → Steps s s
  step : {s t u : System} → Steps s t → Step t u → Steps s u

-- what the writer and the slots have in common
abbrev pub IsWriting : System → Type 0
IsWriting s = elim s.writer [
  | Writer.copying k data_in ↦
      (k ≤ s.rb.user_slotsz)
      × (s.bumps s.rb.wsi % 2 ≡ 1)
      × ((i : ℕ) → i ≢ s.rb.wsi → s.bumps i % 2 ≡ 0)
      × ((j : ℕ) → j < k → (s.rb.slots s.rb.wsi).d j ≡ data_in j)
      × ((j : ℕ) → s.history s.rb.wsi (s.bumps s.rb.wsi / 2 + 1) j ≡ data_in j)
  | _ ↦ (i : ℕ) → s.bumps i % 2 ≡ 0
]

-- the buffer holds the data of one write whole
abbrev pub IsWhole : System → (ℕ → ℕ) → Type 0
IsWhole s buf =
    (i n : ℕ) × (n * 2 ≤ s.bumps i) × ((j : ℕ) → j < s.rb.user_slotsz → buf j ≡ s.history i n j)

-- what the reader has read
abbrev pub IsReading : System → Type 0
IsReading s = elim s.reader [
  | Reader.reading i ver_pre k buf ↦
      (k ≤ s.rb.user_slotsz)
      × (ver_pre ≡ s.seen % u32_mod)
      × (s.seen % 2 ≡ 0)
      × (s.seen ≤ s.bumps i)
      × (s.bumps i ≡ s.seen → (j : ℕ) → j < k → buf j ≡ s.history i (s.seen / 2) j)
  | Reader.succeeded buf ↦ IsWhole s buf
  | _ ↦ Unit
]

pub record IsSound (s : System) : Type 0 where
  pub versions : (i : ℕ) → (s.rb.slots i).ver ≡ s.bumps i % u32_mod
  pub stored :
      (i j : ℕ)
      → s.bumps i % 2 ≡ 0
      → j < s.rb.user_slotsz
      → (s.rb.slots i).d j ≡ s.history i (s.bumps i / 2) j
  pub writing : IsWriting s
  pub is_reading : IsReading s
