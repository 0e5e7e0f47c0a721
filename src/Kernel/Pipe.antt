-- ===== src/Kernel/Pipe.antt =====
-- A socket that meets the laws of `Socket`: it delivers a given list of bytes and then would block,
-- and accepts all that is written.
use jullop.Base.{
  ℕ, zero, suc, ◌≤◌, ◌≡◌, refl, ◌≢◌, ap, List, [], ◌∷◌, ◌++◌, arith, length, take, drop,
  length-take,
}
use jullop.Kernel.{Socket, ReadResult, received, end_of_file, read_blocked, WriteResult, wrote}

pub record Pipe : Type 0 where
  pub incoming : List ℕ
  pub outgoing : List ℕ

abbrev pub read_from : List ℕ → List ℕ → ℕ → ReadResult × Pipe
read_from [] out n = (read_blocked, record { incoming = []; outgoing = out })
read_from (x ∷ xs) out zero = (end_of_file, record { incoming = x ∷ xs; outgoing = out })
read_from (x ∷ xs) out (suc n) =
    (received x (take n xs), record { incoming = drop n xs; outgoing = out })

abbrev pub read : Pipe → ℕ → ReadResult × Pipe
read p n = read_from p.incoming p.outgoing n

abbrev pub write : Pipe → List ℕ → WriteResult × Pipe
write p bytes = (wrote (length bytes), record p { outgoing = p.outgoing ++ bytes })

split_at : (n : ℕ) (xs : List ℕ) → xs ≡ take n xs ++ drop n xs
split_at zero xs = refl
split_at (suc n) [] = refl
split_at (suc n) (x ∷ xs) = ap (λ l. x ∷ l) (split_at n xs)

take_all : (xs : List ℕ) → take (length xs) xs ≡ xs
take_all [] = refl
take_all (x ∷ xs) = ap (λ l. x ∷ l) (take_all xs)

read_from_some :
    (inc out : List ℕ) (t : Pipe) (n x : ℕ) (xs : List ℕ)
    → read_from inc out n ≡ (received x xs, t)
    → (length (x ∷ xs) ≤ n) × (inc ≡ (x ∷ xs) ++ t.incoming) × (t.outgoing ≡ out)
read_from_some [] out t n x xs e = absurd (ground arith)
read_from_some (y ∷ ys) out t zero x xs e = absurd (ground arith)
read_from_some (y ∷ ys) out t (suc n) x xs e = ground (arith, split_at n ys, length-take n ys)

pub read_some :
    (s t : Pipe) (n x : ℕ) (xs : List ℕ)
    → read s n ≡ (received x xs, t)
    → (length (x ∷ xs) ≤ n) × (s.incoming ≡ (x ∷ xs) ++ t.incoming) × (t.outgoing ≡ s.outgoing)
read_some s t n x xs e = read_from_some s.incoming s.outgoing t n x xs e

read_from_none :
    (inc out : List ℕ) (t : Pipe) (n : ℕ) (r : ReadResult)
    → read_from inc out n ≡ (r, t)
    → ((x : ℕ) (xs : List ℕ) → r ≢ received x xs)
    → (t.incoming ≡ inc) × (t.outgoing ≡ out)
read_from_none [] out t n r e h = ground arith
read_from_none (y ∷ ys) out t zero r e h = ground arith
read_from_none (y ∷ ys) out t (suc n) r e h = absurd (h y (take n ys) (ground arith))

pub read_none :
    (s t : Pipe) (n : ℕ) (r : ReadResult)
    → read s n ≡ (r, t)
    → ((x : ℕ) (xs : List ℕ) → r ≢ received x xs)
    → (t.incoming ≡ s.incoming) × (t.outgoing ≡ s.outgoing)
read_none s t n r e h = read_from_none s.incoming s.outgoing t n r e h

pub write_some :
    (s t : Pipe) (bytes : List ℕ) (n : ℕ)
    → write s bytes ≡ (wrote n, t)
    → (n ≤ length bytes) × (t.outgoing ≡ s.outgoing ++ take n bytes) × (t.incoming ≡ s.incoming)
write_some s t bytes n e = ground (arith, take_all bytes)

pub write_none :
    (s t : Pipe) (bytes : List ℕ) (r : WriteResult)
    → write s bytes ≡ (r, t)
    → ((n : ℕ) → r ≢ wrote n)
    → (t.outgoing ≡ s.outgoing) × (t.incoming ≡ s.incoming)
write_none s t bytes r e h = absurd (h (length bytes) (ground arith))

abbrev pub pipe : Socket
pipe = record {
  State = Pipe;
  incoming = λ p. p.incoming;
  outgoing = λ p. p.outgoing;
  read = read;
  write = write;
  read_some = read_some;
  read_none = read_none;
  write_some = write_some;
  write_none = write_none;
}
