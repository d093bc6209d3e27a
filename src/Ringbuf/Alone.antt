-- ===== src/Ringbuf/Alone.antt =====
-- src/ringbuf.c: a write and a read that nothing interrupts, and the layout of the slots.
use ylib.Base.{
  ℕ, zero, suc, ◌+◌, ◌-◌, ◌*◌, ◌/◌, ◌%◌, ◌≤◌, ◌<◌, ◌≡◌, ◌∙◌, ap, refl, true, false, ltb, ◌==◌,
  if◌then◌else◌, u32_mod, arith, Bool-cases, inl, inr, mul_mono,
}
use native.Mathlib.Nat.{mod-eq_of_lt, mod_self}
use ylib.Ringbuf.{
  Ringbuf, set, bump, copy_byte, slotsz, slotof, Writer, write_step, Reader, read_step,
  last_written,
}

-- `n` steps of a writer alone
pub writes : ℕ → (ℕ → ℕ) → Ringbuf → Writer → Ringbuf × Writer
unfolding write_step
writes zero data_in rb w = (rb, w)
writes (suc n) data_in rb w = let (rb', w') = write_step data_in rb w in writes n data_in rb' w'

-- `n` steps of a reader alone
pub reads : ℕ → Ringbuf → Reader → Reader
unfolding read_step
reads zero rb r = r
reads (suc n) rb r = reads n rb (read_step rb r)

-- the steps of a call: the bytes, and the two or three around them
abbrev pub call : Ringbuf → ℕ
call rb = suc (suc (suc rb.user_slotsz))

-- slot `i` holds the data, with an even version
abbrev pub HasData : Ringbuf → ℕ → (ℕ → ℕ) → Type 0
HasData rb i data_in =
    ((rb.slots i).ver % 2 ≡ 0) × ((j : ℕ) → j < rb.user_slotsz → (rb.slots i).d j ≡ data_in j)

-- where a write ends
record Wrote (rb : Ringbuf) (data_in : ℕ → ℕ) (r : Ringbuf × Writer) : Type 0 where
  pub returned : r.1 ≡ Writer.idle
  pub next : r.0.wsi ≡ (rb.wsi + 1) % rb.slotnr
  pub same_size : r.0.user_slotsz ≡ rb.user_slotsz
  pub same_number : r.0.slotnr ≡ rb.slotnr
  pub has_data : HasData r.0 rb.wsi data_in

self : (k : ℕ) → (k == k) ≡ true
self k = ground arith

writes-copying :
    (n k : ℕ) (data_in other : ℕ → ℕ) (rb : Ringbuf)
    → k + n ≡ rb.user_slotsz
    → (rb.slots rb.wsi).ver % 2 ≡ 1
    → ((j : ℕ) → j < k → (rb.slots rb.wsi).d j ≡ data_in j)
    → Wrote rb data_in (writes (suc (suc n)) other rb (Writer.copying k data_in))
unfolding writes write_step
writes-copying zero k data_in other rb e odd so_far =
    let all : ltb k rb.user_slotsz ≡ false = ground (arith, e) in
    rw (all) (record {
      returned = refl;
      next = refl;
      same_size = refl;
      same_number = refl;
      has_data = rw (self rb.wsi) (omega (arith, odd), λ j l. so_far j (omega (arith, e)));
    })
writes-copying (suc n) k data_in other rb e odd so_far =
    let more : ltb k rb.user_slotsz ≡ true = ground (arith, e) in
    let w =
      writes-copying n (suc k) data_in other (copy_byte rb rb.wsi k (data_in k)) (omega (arith, e))
        (ground (arith, odd)) (λ j l. ground (arith, so_far j)) in
    rw more (record {
      returned = w.returned;
      next = w.next;
      same_size = w.same_size;
      same_number = w.same_number;
      has_data = w.has_data;
    })

reads-reading :
    (n i k : ℕ) (data_in buf : ℕ → ℕ) (rb : Ringbuf)
    → k + n ≡ rb.user_slotsz
    → HasData rb i data_in
    → ((j : ℕ) → j < k → buf j ≡ data_in j)
    → (buf' : ℕ → ℕ) × (reads (suc n) rb (Reader.reading i (rb.slots i).ver k buf)
        ≡ Reader.succeeded buf')
      × ((j : ℕ) → j < rb.user_slotsz → buf' j ≡ data_in j)
unfolding reads read_step
reads-reading zero i k data_in buf rb e h so_far =
    let all : ltb k rb.user_slotsz ≡ false = ground (arith, e) in
    let same : ((rb.slots i).ver == (rb.slots i).ver) ≡ true = ground arith in
    (buf, rw (all, same) refl, λ j l. so_far j (omega (arith, e)))
reads-reading (suc n) i k data_in buf rb e h so_far =
    let more : ltb k rb.user_slotsz ≡ true = ground (arith, e) in
    let (buf', r, got) =
      reads-reading n i (suc k) data_in (set buf k ((rb.slots i).d k)) rb (omega (arith, e)) h
        (λ j l. ground (arith, so_far j, h.1 k (omega (arith, e)))) in
    (buf', rw more r, got)

-- the slots of a size that holds a version and the data
apart :
    (size user_slotsz slotnr i j : ℕ)
    → 4 + user_slotsz ≤ size
    → size * slotnr < u32_mod
    → i < j
    → j < slotnr
    → size % u32_mod * i % u32_mod + 4 + user_slotsz ≤ size % u32_mod * j % u32_mod
apart size user_slotsz slotnr i j large whole before inside =
    let narrow : size < u32_mod = omega (arith, mul_mono 1 slotnr size (omega arith)) in
    let upper = mul_mono j slotnr size (omega arith) in
    let gap = mul_mono (suc i) j size before in
    let low : size * i < u32_mod = omega (arith, gap, upper, whole) in
    let high : size * j < u32_mod = omega (arith, upper, whole) in
    rw (mod-eq_of_lt narrow, mod-eq_of_lt low, mod-eq_of_lt high) (omega (arith, gap, large))

-- Slots do not overlap, if all of them, each with its version and its data rounded up to a multiple of
-- four bytes, have fewer than 2 ^ 32 bytes.
pub slotof-apart :
    (user_slotsz slotnr i j : ℕ)
    → (4 + user_slotsz + 3) / 4 * 4 * slotnr < u32_mod
    → i < j
    → j < slotnr
    → slotof user_slotsz i + 4 + user_slotsz ≤ slotof user_slotsz j
unfolding slotof slotsz
slotof-apart user_slotsz slotnr i j small before inside =
    apart ((4 + user_slotsz + 3) / 4 * 4) user_slotsz slotnr i j (omega arith) small before inside

-- the index that a read starts with after a write
last_written-next :
    (rb rb' : Ringbuf)
    → rb.wsi < rb.slotnr
    → rb'.slotnr ≡ rb.slotnr
    → rb'.wsi ≡ (rb.wsi + 1) % rb.slotnr
    → last_written rb' ≡ rb.wsi
last_written-next rb rb' inside same next = elim (Bool-cases (ltb (rb.wsi + 1) rb.slotnr)) [
  | inl more ↦
      let moved : rb'.wsi ≡ rb.wsi + 1 = next ∙ mod-eq_of_lt (ground arith) in
      let seen : (if rb'.wsi == 0 then rb'.slotnr else rb'.wsi) - 1 ≡ rb.wsi =
        ground (arith, moved) in
      rw (seen, same) (mod-eq_of_lt inside)
  | inr last ↦
      let ends : rb.wsi + 1 ≡ rb.slotnr = ground arith in
      let moved : rb'.wsi ≡ 0 = next ∙ ap (λ n. n % rb.slotnr) ends ∙ mod_self rb.slotnr in
      let seen : (if rb'.wsi == 0 then rb'.slotnr else rb'.wsi) - 1 ≡ rb.wsi =
        ground (arith, moved, same, ends) in
      rw (seen, same) (mod-eq_of_lt inside)
]

reads-starting :
    (rb : Ringbuf) (i : ℕ) (data_in : ℕ → ℕ)
    → last_written rb ≡ i
    → HasData rb i data_in
    → (buf : ℕ → ℕ) × (reads (call rb) rb Reader.starting ≡ Reader.succeeded buf)
      × ((j : ℕ) → j < rb.user_slotsz → buf j ≡ data_in j)
unfolding reads read_step
reads-starting rb i data_in last h =
    let even : ((rb.slots i).ver % 2 == 1) ≡ false = ground (arith, h.0) in
    let begin =
      ap (λ k. reads (suc (suc rb.user_slotsz)) rb (Reader.indexed k)) last
      ∙ ap
          (λ b.
            reads (suc rb.user_slotsz) rb
              (if b then Reader.eagain else Reader.reading i (rb.slots i).ver 0 (λ _. 0)))
          even in
    let (buf, e, got) =
      reads-reading rb.user_slotsz i 0 data_in (λ _. 0) rb (omega arith) h
        (λ j l. absurd (omega arith)) in
    (buf, begin ∙ e, got)

-- A call of `yringbuf_read` after a call of `yringbuf_write`, each uninterrupted, ends with success
-- and the data of the write, if no write to the slot was under way.
pub reads-writes :
    (data_in : ℕ → ℕ) (rb : Ringbuf)
    → rb.wsi < rb.slotnr
    → (rb.slots rb.wsi).ver % 2 ≡ 0
    → (buf : ℕ → ℕ) × (reads (call rb) (writes (call rb) data_in rb Writer.idle).0 Reader.starting
        ≡ Reader.succeeded buf)
      × ((j : ℕ) → j < rb.user_slotsz → buf j ≡ data_in j)
unfolding writes write_step
reads-writes data_in rb inside even =
    let w =
      writes-copying rb.user_slotsz 0 data_in data_in (bump rb rb.wsi) (omega arith)
        (ground (arith, even)) (λ j l. absurd (omega arith)) in
    let rb' =
      (writes (suc (suc rb.user_slotsz)) data_in (bump rb rb.wsi) (Writer.copying 0 data_in)).0 in
    rw w.same_size at (
      reads-starting rb' rb.wsi data_in (last_written-next rb rb' inside w.same_number w.next)
        w.has_data)
