-- ===== src/Ringbuf/Tests.antt =====
-- src/ringbuf.c: a ring of two slots of one byte.
use ylib.Base.{ℕ, ◌+◌, ◌≤◌, ◌<◌, ◌≡◌, refl, some, arith}
use ylib.Ringbuf.{Ringbuf, set, zeroed, create, slotof, Writer, write_step, Reader, read_step}
use ylib.Ringbuf.System.{System, by_writer, by_reader, Steps, stay, step, write, read, IsWhole}
use ylib.Ringbuf.Reading.{initial, Steps-IsWhole}
use ylib.Ringbuf.Alone.{call, reads, writes, slotof-apart, reads-writes}

abbrev seven : ℕ → ℕ
seven j = 7

abbrev ring : Ringbuf
ring = zeroed 2 1

ring_created : create 2 1 ≡ some ring
unfolding create
ring_created = refl

-- the writer begins, the reader reads slot 1 whole, the writer goes on
abbrev first_steps : System
first_steps = by_reader (by_writer seven (initial ring))

abbrev last_steps : System
last_steps = by_writer seven (by_reader (by_reader (by_reader first_steps)))

last_steps-Steps : Steps (initial ring) last_steps
unfolding by_reader by_writer
last_steps-Steps =
    step
      (step
        (step
          (step
            (step (step stay (write seven (initial ring)))
              (read (by_writer seven (initial ring)) tt))
            (read first_steps tt))
          (read (by_reader first_steps) (omega arith)))
        (read (by_reader (by_reader first_steps)) (omega arith)))
      (write seven (by_reader (by_reader (by_reader first_steps))))

-- the zero of the slot not written yet
abbrev got : ℕ → ℕ
got = set (λ _. 0) 0 0

last_reader : last_steps.reader ≡ Reader.succeeded got
unfolding by_writer by_reader read_step write_step
last_reader = refl

Steps-IsWhole_example : IsWhole last_steps got
Steps-IsWhole_example =
    Steps-IsWhole 2 1 ring last_steps got ring_created last_steps-Steps last_reader

reads-writes_example :
    (buf : ℕ → ℕ) × (reads (call ring) (writes (call ring) seven ring Writer.idle).0 Reader.starting
      ≡ Reader.succeeded buf)
    × ((j : ℕ) → j < 1 → buf j ≡ 7)
reads-writes_example = reads-writes seven ring (omega arith) (omega arith)

slotof-apart_example : slotof 5 1 + 4 + 5 ≤ slotof 5 3
slotof-apart_example = slotof-apart 5 4 1 3 (omega arith) (omega arith) (omega arith)
