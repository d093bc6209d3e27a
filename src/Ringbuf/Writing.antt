-- ===== src/Ringbuf/Writing.antt =====
-- src/ringbuf.c: a step of the writer keeps what is written whole.
use ylib.Base.{
  ℕ, suc, ◌+◌, ◌*◌, ◌/◌, ◌%◌, ◌≤◌, ◌<◌, ◌≡◌, ◌∙◌, sym, refl, true, false, ltb, ◌==◌, if◌then◌else◌,
  u32_mod, arith, Bool-cases, inl, inr,
}
use ylib.Ringbuf.{Ringbuf, set, bump, copy_byte, Writer, write_step, Reader}
use ylib.Ringbuf.System.{System, by_writer, IsWriting, IsReading, IsSound}

module _ (data_in : ℕ → ℕ) (rb : Ringbuf) (r : Reader) (bumps : ℕ → ℕ) (history : ℕ → ℕ → ℕ → ℕ)
    (seen : ℕ) where
  abbrev sys : Writer → System
  sys w = record { rb = rb; writer = w; reader = r; bumps = bumps; history = history; seen = seen }

  -- the first `__atomic_add_fetch` is done
  abbrev begun : System
  begun = record {
    rb = bump rb rb.wsi;
    writer = Writer.copying 0 data_in;
    reader = r;
    bumps = set bumps rb.wsi (bumps rb.wsi + 1);
    history = λ i n.
        if i == rb.wsi
        then (if n == bumps i / 2 + 1 then data_in else history i n)
        else history i n;
    seen = seen;
  }

  -- the data of earlier writes is kept
  begun-history : (i n : ℕ) → n * 2 ≤ bumps i → begun.history i n ≡ history i n
  begun-history i n early = elim (Bool-cases (i == rb.wsi)) [
    | inl here ↦ let older : (n == bumps i / 2 + 1) ≡ false = ground arith in rw (here, older) refl
    | inr other ↦ rw other refl
  ]

  self : (rb.wsi == rb.wsi) ≡ true
  self = ground arith

  newest :
      IsSound (sys Writer.idle)
      → (set bumps rb.wsi (bumps rb.wsi + 1) rb.wsi / 2 + 1 == bumps rb.wsi / 2 + 1) ≡ true
  newest v = ground (arith, v.writing rb.wsi)

  begun-IsWriting : IsSound (sys Writer.idle) → IsWriting begun
  begun-IsWriting v = (
    omega arith,
    ground (arith, v.writing rb.wsi),
    λ i other. ground (arith, v.writing i),
    λ j l. absurd (omega arith),
    λ j. rw (newest v, self) refl,
  )

  begun-IsReading :
      (r' : Reader)
      → IsReading (record (sys Writer.idle) { reader = r' })
      → IsReading (record begun { reader = r' })
  begun-IsReading (Reader.reading i ver_pre k buf) (inside, pre, even, past, got) = (
    inside,
    pre,
    even,
    ground (arith, past),
    λ same j l.
        let unchanged : bumps i ≡ seen = ground (arith, past, same) in
        rw (begun-history i (seen / 2) (omega arith)) (got unchanged j l),
  )
  begun-IsReading (Reader.succeeded buf) (i, n, past, whole) =
      (i, n, ground (arith, past), λ j l. rw (begun-history i n past) (whole j l))
  begun-IsReading (Reader.indexed i) x = tt
  begun-IsReading Reader.starting x = tt
  begun-IsReading Reader.eagain x = tt

  begun-stored :
      IsSound (sys Writer.idle)
      → (i j : ℕ) → begun.bumps i % 2 ≡ 0
      → j < rb.user_slotsz
      → (begun.rb.slots i).d j ≡ begun.history i (begun.bumps i / 2) j
  begun-stored v i j e l = elim (Bool-cases (i == rb.wsi)) [
    | inl here ↦ absurd (ground (arith, v.writing i, v.writing rb.wsi))
    | inr other ↦ rw other (v.stored i j (v.writing i) l)
  ]

  begun-versions :
      IsSound (sys Writer.idle) → (i : ℕ) → (begun.rb.slots i).ver ≡ begun.bumps i % u32_mod
  begun-versions v i = ground (arith, v.versions i)

  begun-IsSound : IsSound (sys Writer.idle) → IsSound begun
  begun-IsSound v = record {
    versions = begun-versions v;
    stored = begun-stored v;
    writing = begun-IsWriting v;
    is_reading = begun-IsReading r v.is_reading;
  }

  -- one byte is copied
  abbrev copied : ℕ → (ℕ → ℕ) → System
  copied k d = record {
    rb = copy_byte rb rb.wsi k (d k);
    writer = Writer.copying (suc k) d;
    reader = r;
    bumps = bumps;
    history = history;
    seen = seen;
  }

  copied-IsReading :
      (k : ℕ) (d : ℕ → ℕ) (w : Writer) (r' : Reader)
      → IsReading (record (sys w) { reader = r' })
      → IsReading (record (copied k d) { reader = r' })
  copied-IsReading k d w (Reader.reading i ver_pre m buf) x = x
  copied-IsReading k d w (Reader.succeeded buf) x = x
  copied-IsReading k d w (Reader.indexed i) x = tt
  copied-IsReading k d w Reader.starting x = tt
  copied-IsReading k d w Reader.eagain x = tt

  copied-IsSound :
      (k : ℕ) (d : ℕ → ℕ)
      → k < rb.user_slotsz
      → IsSound (sys (Writer.copying k d))
      → IsSound (copied k d)
  copied-IsSound k d more v = record {
    versions = λ i. ground (arith, v.versions i);
    stored = λ i j even l. elim (Bool-cases (i == rb.wsi)) [
      | inl here ↦ absurd (ground (arith, v.writing))
      | inr other ↦ rw other (v.stored i j even l)
    ];
    writing =
        let (inside, odd, others, done_bytes, newest) = v.writing in
        (omega arith, odd, others, λ j l. ground (arith, done_bytes j), newest);
    is_reading = copied-IsReading k d (Writer.copying k d) r v.is_reading;
  }

  -- the second `__atomic_add_fetch` is done
  abbrev ended : System
  ended = record {
    rb = bump rb rb.wsi;
    writer = Writer.published;
    reader = r;
    bumps = set bumps rb.wsi (bumps rb.wsi + 1);
    history = history;
    seen = seen;
  }

  ended-IsReading :
      (w : Writer) (r' : Reader)
      → IsReading (record (sys w) { reader = r' })
      → IsReading (record ended { reader = r' })
  ended-IsReading w (Reader.reading i ver_pre m buf) (inside, pre, even, past, got) =
      (inside, pre, even, ground (arith, past), λ same j l. got (ground (arith, past, same)) j l)
  ended-IsReading w (Reader.succeeded buf) (i, n, past, whole) = (i, n, ground (arith, past), whole)
  ended-IsReading w (Reader.indexed i) x = tt
  ended-IsReading w Reader.starting x = tt
  ended-IsReading w Reader.eagain x = tt

  ended-IsSound :
      (k : ℕ) (d : ℕ → ℕ) → rb.user_slotsz ≤ k → IsSound (sys (Writer.copying k d)) → IsSound ended
  ended-IsSound k d all v =
      let (inside, odd, others, done_bytes, newest) = v.writing in
      record {
        versions = λ i. ground (arith, v.versions i);
        stored = λ i j even l. elim (Bool-cases (i == rb.wsi)) [
          | inl here ↦
              let place : i ≡ rb.wsi = ground arith in
              let half : (bumps rb.wsi + 1) / 2 ≡ bumps rb.wsi / 2 + 1 = omega arith in
              rw (place, self, half) (done_bytes j (omega arith) ∙ sym (newest j))
          | inr other ↦ rw other (v.stored i j (ground (arith, even, other)) l)
        ];
        writing = λ i. ground (arith, odd, others i);
        is_reading = ended-IsReading (Writer.copying k d) r v.is_reading;
      }

  -- `wsi` is moved on
  abbrev advanced : System
  advanced = record (sys Writer.idle) { rb = record rb { wsi = (rb.wsi + 1) % rb.slotnr } }

  advanced-IsReading :
      (r' : Reader)
      → IsReading (record (sys Writer.published) { reader = r' })
      → IsReading (record advanced { reader = r' })
  advanced-IsReading (Reader.reading i ver_pre m buf) x = x
  advanced-IsReading (Reader.succeeded buf) x = x
  advanced-IsReading (Reader.indexed i) x = tt
  advanced-IsReading Reader.starting x = tt
  advanced-IsReading Reader.eagain x = tt

  advanced-IsSound : IsSound (sys Writer.published) → IsSound advanced
  advanced-IsSound v = record {
    versions = v.versions;
    stored = v.stored;
    writing = v.writing;
    is_reading = advanced-IsReading r v.is_reading;
  }

  sys-IsSound : (w : Writer) → IsSound (sys w) → IsSound (by_writer data_in (sys w))
  unfolding by_writer write_step
  sys-IsSound Writer.idle v = begun-IsSound v
  sys-IsSound (Writer.copying k d) v = elim (Bool-cases (ltb k rb.user_slotsz)) [
    | inl more ↦ rw more (copied-IsSound k d (ground arith) v)
    | inr all ↦ rw all (ended-IsSound k d (ground arith) v)
  ]
  sys-IsSound Writer.published v = advanced-IsSound v

pub by_writer-IsSound : (data_in : ℕ → ℕ) (s : System) → IsSound s → IsSound (by_writer data_in s)
by_writer-IsSound data_in s v =
    sys-IsSound data_in s.rb s.reader s.bumps s.history s.seen s.writer v
