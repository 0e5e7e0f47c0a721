-- ===== src/Kernel/Counting.antt =====
-- A counter that meets the laws of `EventFd`: the assumptions can hold together.
use jullop.Base.{
  ℕ, ◌+◌, ◌-◌, ◌^◌, ◌<◌, ◌≡◌, refl, Option, none, some, arith, ltb, ◌==◌, if◌then◌else◌,
}
use jullop.Kernel.{EventFd}

abbrev pub write : ℕ → ℕ → Option ℕ
write s n = if ltb (s + n) (2 ^ 64 - 1) then some (s + n) else none

abbrev pub read : ℕ → Option (ℕ × ℕ)
read s = if s == 0 then none else some (s, 0)

pub write_adds : (s t n : ℕ) → write s n ≡ some t → t ≡ s + n
write_adds s t n e = ground arith

pub write_room : (s n : ℕ) → s + n < 2 ^ 64 - 1 → (t : ℕ) × (write s n ≡ some t)
write_room s n h = (s + n, ground arith)

pub read_takes : (s t n : ℕ) → read s ≡ some (n, t) → (n ≡ s) × (0 < n) × (t ≡ 0)
read_takes s t n e = ground arith

pub read_ready : (s : ℕ) → 0 < s → (p : ℕ × ℕ) × (read s ≡ some p)
read_ready s h = ((s, 0), ground arith)

abbrev pub counting : EventFd
counting = record {
  State = ℕ;
  value = λ s. s;
  create = 0;
  write = write;
  read = read;
  value-create = refl;
  write_adds = write_adds;
  write_room = write_room;
  read_takes = read_takes;
  read_ready = read_ready;
}
