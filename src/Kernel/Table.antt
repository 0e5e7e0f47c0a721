-- ===== src/Kernel/Table.antt =====
-- An epoll instance that meets the laws of `Epoll`: a table from descriptors to registrations.
use mathlib.Core.Path.{subst}
use jullop.Base.{ℕ, ◌≡◌, ◌≢◌, refl, arith, Option, none, some, ◌==◌, if◌then◌else◌}
use jullop.Kernel.{Epoll, Interest}

abbrev pub Registrations : Type 0
Registrations = ℕ → Option (Interest × ℕ)

abbrev pub put : Registrations → ℕ → Option (Interest × ℕ) → Registrations
put s fd o = λ k. if k == fd then o else s k

abbrev pub when_none : Option (Interest × ℕ) → Registrations → Option Registrations
when_none none t = some t
when_none (some y) t = none

abbrev pub when_some : Option (Interest × ℕ) → Registrations → Option Registrations
when_some none t = none
when_some (some y) t = some t

put_sets :
    (s : Registrations) (fd : ℕ) (o : Option (Interest × ℕ))
    → (put s fd o fd ≡ o) × ((k : ℕ) → k ≢ fd → put s fd o k ≡ s k)
put_sets s fd o = (ground arith, λ k ne. ground arith)

pub add_new :
    (s : Registrations) (fd : ℕ) (x : Interest × ℕ)
    → s fd ≡ none
    → (t : Registrations) × (when_none (s fd) (put s fd (some x)) ≡ some t)
add_new s fd x e = (put s fd (some x), rw e refl)

pub add_sets :
    (s t : Registrations) (fd : ℕ) (x : Interest × ℕ) (o : Option (Interest × ℕ))
    → s fd ≡ o
    → when_none o (put s fd (some x)) ≡ some t
    → (s fd ≡ none) × (t fd ≡ some x) × ((k : ℕ) → k ≢ fd → t k ≡ s k)
add_sets s t fd x none e h =
    let same : put s fd (some x) ≡ t = cc in
    (
      e,
      subst (λ u. u fd ≡ some x) same (put_sets s fd (some x)).0,
      subst (λ u. (k : ℕ) → k ≢ fd → u k ≡ s k) same (put_sets s fd (some x)).1,
    )
add_sets s t fd x (some y) e h = cc

pub known :
    (s t : Registrations) (fd : ℕ) (y : Interest × ℕ)
    → s fd ≡ some y
    → (u : Registrations) × (when_some (s fd) t ≡ some u)
known s t fd y e = (t, rw e refl)

pub some_sets :
    (s t : Registrations) (fd : ℕ) (n o : Option (Interest × ℕ))
    → s fd ≡ o
    → when_some o (put s fd n) ≡ some t
    → (s fd ≢ none) × (t fd ≡ n) × ((k : ℕ) → k ≢ fd → t k ≡ s k)
some_sets s t fd n none e h = cc
some_sets s t fd n (some y) e h =
    let same : put s fd n ≡ t = cc in
    (
      λ z. cc,
      subst (λ u. u fd ≡ n) same (put_sets s fd n).0,
      subst (λ u. (k : ℕ) → k ≢ fd → u k ≡ s k) same (put_sets s fd n).1,
    )

abbrev pub table : Epoll
table = record {
  State = Registrations;
  registered = λ s fd. s fd;
  ctl_add = λ s fd x. when_none (s fd) (put s fd (some x));
  ctl_mod = λ s fd x. when_some (s fd) (put s fd (some x));
  ctl_del = λ s fd. when_some (s fd) (put s fd none);
  add_new = λ s fd x. add_new s fd x;
  add_sets = λ s t fd x. add_sets s t fd x (s fd) refl;
  mod_known = λ s fd x y. known s (put s fd (some x)) fd y;
  mod_sets = λ s t fd x. some_sets s t fd (some x) (s fd) refl;
  del_known = λ s fd y. known s (put s fd none) fd y;
  del_clears = λ s t fd. some_sets s t fd none (s fd) refl;
}
