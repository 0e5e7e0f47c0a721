-- ===== src/Kernel.antt =====
-- What the program takes from the kernel and the C library's allocator, as interfaces. None of it is
-- part of the repository; the laws are the documented ones.
pub mod Counting
pub mod Pipe
pub mod Table
use jullop.Base.{
  Bool, List, [], ◌∷◌, ◌++◌, length, take, ◌≤◌, ◌≢◌, ℕ, ◌+◌, ◌-◌, ◌^◌, ◌<◌, ◌≡◌, Option, none, some,
}

pub record EventFd : Type 1 where
  -- the state of a descriptor in the kernel
  pub State : Type 0
  pub value : State → ℕ
  -- eventfd(0, EFD_NONBLOCK)
  pub create : State
  -- eventfd_write; `none` is the result -1
  pub write : State → ℕ → Option State
  -- eventfd_read; `none` is the result -1
  pub read : State → Option (ℕ × State)
  pub value-create : value create ≡ 0
  pub write_adds : (s t : State) (n : ℕ) → write s n ≡ some t → value t ≡ value s + n
  pub write_room :
      (s : State) (n : ℕ) → value s + n < 2 ^ 64 - 1 → (t : State) × (write s n ≡ some t)
  pub read_takes :
      (s t : State) (n : ℕ) → read s ≡ some (n, t) → (n ≡ value s) × (0 < n) × (value t ≡ 0)
  pub read_ready : (s : State) → 0 < value s → (p : ℕ × State) × (read s ≡ some p)

-- What read(2) and write(2) return: a count of bytes that is not 0, 0, -1 with errno EAGAIN or
-- EWOULDBLOCK (the ERROR_BLOCK of logging.h), or -1 with another errno.
pub data ReadResult : Type 0 where
  received : ℕ → List ℕ → ReadResult  -- the first byte and the others
  end_of_file read_blocked read_failed : ReadResult

pub data WriteResult : Type 0 where
  wrote : ℕ → WriteResult
  write_blocked write_failed : WriteResult

-- A non-blocking stream socket. `incoming` is what it has still to deliver, now or later; `outgoing`
-- is what it has accepted.
pub record Socket : Type 1 where
  pub State : Type 0
  pub incoming : State → List ℕ
  pub outgoing : State → List ℕ
  pub read : State → ℕ → ReadResult × State
  pub write : State → List ℕ → WriteResult × State
  pub read_some :
      (s t : State) (n x : ℕ) (xs : List ℕ)
      → read s n ≡ (received x xs, t)
      → (length (x ∷ xs) ≤ n) × (incoming s ≡ (x ∷ xs) ++ incoming t) × (outgoing t ≡ outgoing s)
  pub read_none :
      (s t : State) (n : ℕ) (r : ReadResult)
      → read s n ≡ (r, t)
      → ((x : ℕ) (xs : List ℕ) → r ≢ received x xs)
      → (incoming t ≡ incoming s) × (outgoing t ≡ outgoing s)
  pub write_some :
      (s t : State) (bytes : List ℕ) (n : ℕ)
      → write s bytes ≡ (wrote n, t)
      → (n ≤ length bytes) × (outgoing t ≡ outgoing s ++ take n bytes) × (incoming t ≡ incoming s)
  pub write_none :
      (s t : State) (bytes : List ℕ) (r : WriteResult)
      → write s bytes ≡ (r, t)
      → ((n : ℕ) → r ≢ wrote n)
      → (outgoing t ≡ outgoing s) × (incoming t ≡ incoming s)

-- Which sizes malloc and realloc can serve, and the byte that memory holds before it is written.
pub record Memory : Type 0 where
  pub available : ℕ → Bool
  pub junk : ℕ

-- What a descriptor is registered for: EPOLLIN or EPOLLOUT, each with EPOLLERR, EPOLLRDHUP, EPOLLHUP
-- and EPOLLPRI.
pub data Interest : Type 0 where
  input_events output_events : Interest

-- An epoll instance whose interest list has room. `none` is the result -1 of epoll_ctl.
pub record Epoll : Type 1 where
  pub State : Type 0
  -- the events and the pointer that a descriptor is registered with
  pub registered : State → ℕ → Option (Interest × ℕ)
  pub ctl_add : State → ℕ → Interest × ℕ → Option State
  pub ctl_mod : State → ℕ → Interest × ℕ → Option State
  pub ctl_del : State → ℕ → Option State
  pub add_new :
      (s : State) (fd : ℕ) (x : Interest × ℕ)
      → registered s fd ≡ none
      → (t : State) × (ctl_add s fd x ≡ some t)
  pub add_sets :
      (s t : State) (fd : ℕ) (x : Interest × ℕ)
      → ctl_add s fd x ≡ some t
      → (registered s fd ≡ none)
        × (registered t fd ≡ some x)
        × ((other : ℕ) → other ≢ fd → registered t other ≡ registered s other)
  pub mod_known :
      (s : State) (fd : ℕ) (x y : Interest × ℕ)
      → registered s fd ≡ some y
      → (t : State) × (ctl_mod s fd x ≡ some t)
  pub mod_sets :
      (s t : State) (fd : ℕ) (x : Interest × ℕ)
      → ctl_mod s fd x ≡ some t
      → (registered s fd ≢ none)
        × (registered t fd ≡ some x)
        × ((other : ℕ) → other ≢ fd → registered t other ≡ registered s other)
  pub del_known :
      (s : State) (fd : ℕ) (y : Interest × ℕ)
      → registered s fd ≡ some y
      → (t : State) × (ctl_del s fd ≡ some t)
  pub del_clears :
      (s t : State) (fd : ℕ)
      → ctl_del s fd ≡ some t
      → (registered s fd ≢ none)
        × (registered t fd ≡ none)
        × ((other : ℕ) → other ≢ fd → registered t other ≡ registered s other)
