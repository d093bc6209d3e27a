-- ===== src/Ringbuf/Reading.antt =====
-- src/ringbuf.c: a read that succeeds has read one write whole.
use ylib.Base.{ℕ, ◌/◌, ◌%◌, ◌≡◌, sym, refl, true, some, ltb, ◌==◌, arith, Bool-cases, inl, inr}
use ylib.Ringbuf.{Ringbuf, create, zeroed, Writer, Reader, read_step}
use ylib.Ringbuf.System.{
  System, by_reader, InWindow, Step, write, read, Steps, stay, step, IsWhole, IsReading, IsSound,
}
use ylib.Ringbuf.Writing.{by_writer-IsSound}

module _ (rb : Ringbuf) (w : Writer) (bumps : ℕ → ℕ) (history : ℕ → ℕ → ℕ → ℕ) (seen : ℕ) where
  abbrev sys : Reader → System
  sys r = record { rb = rb; writer = w; reader = r; bumps = bumps; history = history; seen = seen }

  self : (k : ℕ) → (k == k) ≡ true
  self k = ground arith

  reader-IsReading :
      (r : Reader) → IsSound (sys r) → InWindow (sys r) → IsReading (by_reader (sys r))
  unfolding by_reader read_step
  reader-IsReading Reader.starting v k = tt
  reader-IsReading Reader.eagain v k = tt
  reader-IsReading (Reader.succeeded buf) v k = tt
  reader-IsReading (Reader.indexed i) v k = elim (Bool-cases ((rb.slots i).ver % 2 == 1)) [
    | inl odd ↦ rw odd tt
    | inr even ↦ rw even (
      omega arith,
      v.versions i,
      ground (arith, v.versions i),
      omega arith,
      λ same j l. absurd (omega arith),
    )
  ]
  reader-IsReading (Reader.reading i ver_pre k buf) v window =
      let (inside, pre, even, past, got) = v.is_reading in
      elim (Bool-cases (ltb k rb.user_slotsz)) [
        | inl more ↦ rw more (
          ground arith,
          pre,
          even,
          past,
          λ same j l. elim (Bool-cases (j == k)) [
            | inl last ↦
                let place : j ≡ k = ground arith in
                rw (place, self k) (rw same at (v.stored i k (rw same even) (ground arith)))
            | inr earlier ↦ rw earlier (got same j (ground arith))
          ],
        )
        | inr all ↦ elim (Bool-cases (ver_pre == (rb.slots i).ver)) [
          | inl unchanged ↦
              let same : bumps i ≡ seen =
                ground (arith, pre, past, window, v.versions i, unchanged) in
              rw (all, unchanged) (i, seen / 2, omega arith, λ j l. got same j (ground arith))
          | inr changed ↦ rw (all, changed) tt
        ]
      ]

  -- the reader changes nothing that is shared
  reader-IsSound :
      (r : Reader) → IsSound (sys r) → IsReading (by_reader (sys r)) → IsSound (by_reader (sys r))
  unfolding by_reader
  reader-IsSound Reader.starting v x = record {
    versions = v.versions;
    stored = v.stored;
    writing = v.writing;
    is_reading = x;
  }
  reader-IsSound Reader.eagain v x = record {
    versions = v.versions;
    stored = v.stored;
    writing = v.writing;
    is_reading = x;
  }
  reader-IsSound (Reader.succeeded buf) v x = record {
    versions = v.versions;
    stored = v.stored;
    writing = v.writing;
    is_reading = x;
  }
  reader-IsSound (Reader.indexed i) v x = record {
    versions = v.versions;
    stored = v.stored;
    writing = v.writing;
    is_reading = x;
  }
  reader-IsSound (Reader.reading i ver_pre k buf) v x = record {
    versions = v.versions;
    stored = v.stored;
    writing = v.writing;
    is_reading = x;
  }

by_reader-IsSound : (s : System) → IsSound s → InWindow s → IsSound (by_reader s)
by_reader-IsSound s v k =
    reader-IsSound s.rb s.writer s.bumps s.history s.seen s.reader v
      (reader-IsReading s.rb s.writer s.bumps s.history s.seen s.reader v k)

Step-IsSound : {s t : System} → Step s t → IsSound s → IsSound t
Step-IsSound (write data_in s) v = by_writer-IsSound data_in s v
Step-IsSound (read s k) v = by_reader-IsSound s v k

Steps-IsSound : {s t : System} → Steps s t → IsSound s → IsSound t
Steps-IsSound stay v = v
Steps-IsSound (step past last) v = Step-IsSound last (Steps-IsSound past v)

-- a new ring, before the first call
abbrev pub initial : Ringbuf → System
initial rb = record {
  rb = rb;
  writer = Writer.idle;
  reader = Reader.starting;
  bumps = λ _. 0;
  history = λ _ _ _. 0;
  seen = 0;
}

create-zeroed :
    (slotnr user_slotsz : ℕ) (rb : Ringbuf)
    → create slotnr user_slotsz ≡ some rb
    → zeroed slotnr user_slotsz ≡ rb
unfolding create
create-zeroed slotnr user_slotsz rb e = elim (Bool-cases (ltb slotnr 2)) [
  | inl few ↦ absurd (ground (arith, e))
  | inr enough ↦ ground (arith, rw enough at e)
]

zeroed-IsSound : (slotnr user_slotsz : ℕ) → IsSound (initial (zeroed slotnr user_slotsz))
zeroed-IsSound slotnr user_slotsz = record {
  versions = λ i. omega arith;
  stored = λ i j even l. refl;
  writing = λ i. omega arith;
  is_reading = tt;
}

-- However the steps of the writer and of a reader interleave, with fewer than 2 ^ 31 writes to the
-- slot in the course of one read: a `yringbuf_read` that returns 0 has copied the data of one
-- `yringbuf_write` to its slot whole, whose second increase of the version had taken place, or the zeros
-- of a slot never written. It never mixes the bytes of two writes.
pub Steps-IsWhole :
    (slotnr user_slotsz : ℕ) (rb : Ringbuf) (s : System) (buf : ℕ → ℕ)
    → create slotnr user_slotsz ≡ some rb
    → Steps (initial rb) s
    → s.reader ≡ Reader.succeeded buf
    → IsWhole s buf
Steps-IsWhole slotnr user_slotsz rb s buf e steps last =
    rw last at
      (Steps-IsSound steps (
        rw (sym (create-zeroed slotnr user_slotsz rb e))
          (zeroed-IsSound slotnr user_slotsz))).is_reading
