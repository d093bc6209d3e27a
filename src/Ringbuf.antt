-- ===== src/Ringbuf.antt =====
-- src/ringbuf.c and src/yringbuf.h: a ring of slots that one thread writes and others read without a
-- lock. The data of a slot is a function from indexes below `user_slotsz` to bytes; a `memcpy`
-- copies one byte at each step. Every atomic operation and every copied byte of the writer and of a
-- reader is one step on the shared memory, so a run is any interleaving of them.
pub mod System
pub mod Writing
pub mod Reading
pub mod Alone
mod Tests
use ylib.Base.{
  ℕ, zero, suc, ◌+◌, ◌-◌, ◌*◌, ◌/◌, ◌%◌, ◌<◌, ◌≡◌, Bool, true, false, Option, none, some, ltb, ◌==◌,
  if◌then◌else◌, u32_mod,
}

pub record Slot : Type 0 where
  pub ver : ℕ
  pub d : ℕ → ℕ

-- `struct yringbuf`: the slots are the bytes `d`
pub record Ringbuf : Type 0 where
  pub user_slotsz : ℕ
  pub slotnr : ℕ
  pub wsi : ℕ
  pub slots : ℕ → Slot

abbrev pub set : (ℕ → ℕ) → ℕ → ℕ → ℕ → ℕ
set f i v j = if j == i then v else f j

abbrev pub set_slot : Ringbuf → ℕ → Slot → Ringbuf
set_slot rb i s = record rb { slots = λ j. if j == i then s else rb.slots j }

-- `slotsz_`, where `struct slot` has 4 bytes
unfoldable pub slotsz : ℕ → ℕ
slotsz user_slotsz = (4 + user_slotsz + 3) / 4 * 4 % u32_mod

-- the offset of a slot in the bytes `d`
unfoldable pub slotof : ℕ → ℕ → ℕ
unfolding slotsz
slotof user_slotsz index = slotsz user_slotsz * index % u32_mod

-- a ring of zeroed slots
abbrev pub zeroed : ℕ → ℕ → Ringbuf
zeroed slotnr user_slotsz = record {
  user_slotsz = user_slotsz;
  slotnr = slotnr;
  wsi = 0;
  slots = λ _. record { ver = 0; d = λ _. 0 };
}

-- a refused `ymalloc` is not noticed in the source, and is left out
pub create : ℕ → ℕ → Option Ringbuf
create slotnr user_slotsz = if ltb slotnr 2 then none else some (zeroed slotnr user_slotsz)

-- `__atomic_add_fetch(&slot->ver, 1, ...)`
abbrev pub bump : Ringbuf → ℕ → Ringbuf
bump rb i = set_slot rb i (record (rb.slots i) { ver = ((rb.slots i).ver + 1) % u32_mod })

-- the copy of one byte to a slot
abbrev pub copy_byte : Ringbuf → ℕ → ℕ → ℕ → Ringbuf
copy_byte rb i k v = set_slot rb i (record (rb.slots i) { d = set (rb.slots i).d k v })

-- where `yringbuf_write` is: before it, in its `memcpy` with `k` bytes copied, and behind the second
-- `__atomic_add_fetch`
pub data Writer : Type 0 where
  idle published : Writer
  copying : (k : ℕ) → (data_in : ℕ → ℕ) → Writer

-- the next step of `yringbuf_write`, which is called with `data_in` if it is idle
pub write_step : (ℕ → ℕ) → Ringbuf → Writer → Ringbuf × Writer
write_step data_in rb Writer.idle = (bump rb rb.wsi, Writer.copying 0 data_in)
write_step _ rb (Writer.copying k data_in) =
    if ltb k rb.user_slotsz
    then (copy_byte rb rb.wsi k (data_in k), Writer.copying (suc k) data_in)
    else (bump rb rb.wsi, Writer.published)
write_step _ rb Writer.published = (record rb { wsi = (rb.wsi + 1) % rb.slotnr }, Writer.idle)

-- where `yringbuf_read` is: before it, after the index is computed, in its `memcpy` with `k` bytes
-- copied to `buf`, and behind it, with its result
pub data Reader : Type 0 where
  starting eagain : Reader
  indexed : (i : ℕ) → Reader
  reading : (i ver_pre k : ℕ) → (buf : ℕ → ℕ) → Reader
  succeeded : (buf : ℕ → ℕ) → Reader

-- the slot written most recently
abbrev pub last_written : Ringbuf → ℕ
last_written rb = ((if rb.wsi == 0 then rb.slotnr else rb.wsi) - 1) % rb.slotnr

-- the next step of `yringbuf_read`, which is called again after it has returned
pub read_step : Ringbuf → Reader → Reader
read_step rb Reader.starting = Reader.indexed (last_written rb)
read_step rb (Reader.indexed i) =
    if (rb.slots i).ver % 2 == 1
    then Reader.eagain
    else Reader.reading i (rb.slots i).ver 0 (λ _. 0)
read_step rb (Reader.reading i ver_pre k buf) =
    if ltb k rb.user_slotsz
    then Reader.reading i ver_pre (suc k) (set buf k ((rb.slots i).d k))
    else if ver_pre == (rb.slots i).ver
    then Reader.succeeded buf
    else Reader.eagain
read_step rb (Reader.succeeded buf) = Reader.starting
read_step rb Reader.eagain = Reader.starting
