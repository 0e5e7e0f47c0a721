-- ===== src/System/Phases.antt =====
-- The phases of a connection, and the results of an operation, tell themselves apart.
use jullop.Base.{◌≡◌, none, some, done, exit_failure}
use jullop.Lifecycle.{reading, queued, writing, closed}

pub queued-closed : queued ≡ closed → ⊥
queued-closed e = cc

pub reading-closed : reading ≡ closed → ⊥
reading-closed e = cc

pub reading-queued : reading ≡ queued → ⊥
reading-queued e = cc

pub writing-closed : writing ≡ closed → ⊥
writing-closed e = cc

pub writing-queued : writing ≡ queued → ⊥
writing-queued e = cc

pub done-injective : {A : Type 0} → (a b : A) → done a ≡ done b → a ≡ b
done-injective a b e = cc

pub not_exit : {A : Type 0} → (a : A) → done a ≡ exit_failure → ⊥
not_exit a e = cc

pub none-apart-some : {A : Type 0} → (a : A) → none ≡ some a → ⊥
none-apart-some a e = cc
