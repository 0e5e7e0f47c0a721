-- ===== src/System/Invariant.antt =====
-- What holds of the server in every reachable state.
use mathlib.Core.Path.{subst}
use jullop.Base.{
  ℕ, ◌%◌, ◌^◌, ◌<◌, ◌≤◌, ◌≡◌, ◌≢◌, refl, sym, ◌∙◌, ap, arith, Bool, true, false, List, [], ◌∷◌,
  ◌++◌, length, none, ◌==◌, if◌then◌else◌,
}
use jullop.Kernel.{Socket, Epoll, EventFd}
use jullop.Ring.Api.{null}
use jullop.Server.{World, Connection}
use jullop.Lifecycle.{Phase, reading, queued, writing, closed, InPhase}
use jullop.System.{
  Entry, State, fd_weight, address_weight, wait_weight, at_address, kept, is_one, is_none,
}
use jullop.System.Sums.{sum_of, All, All-append, All-split, All-light}
use jullop.System.Queues.{HasQueue}

-- Every connection was last handed to an actor that there is.
abbrev pub IsAssigned : {S : Type 0} → ℕ → List (Entry S) → Type 0
IsAssigned actor_count entries = All (λ e. e.actor < actor_count) entries

module _ {S : Type 0} {n n' : ℕ} (same : n' ≡ n) where
  pub IsAssigned-same : (entries : List (Entry S)) → IsAssigned n entries → IsAssigned n' entries
  IsAssigned-same entries h = subst (λ k. IsAssigned k entries) (sym same) h

  pub replaced-IsAssigned :
      (before after : List (Entry S)) (e e' : Entry S)
      → IsAssigned n (before ++ (e ∷ after))
      → e'.actor < n
      → IsAssigned n' (before ++ (e' ∷ after))
  replaced-IsAssigned before after e e' h fits =
      let (b, a) = All-split (λ e. e.actor < n) before (e ∷ after) h in
      IsAssigned-same (before ++ (e' ∷ after))
        (All-append (λ e. e.actor < n) before (e' ∷ after) b (fits, a.1))

  pub removed-IsAssigned :
      (before after : List (Entry S)) (e : Entry S)
      → IsAssigned n (before ++ (e ∷ after))
      → IsAssigned n' (before ++ after)
  removed-IsAssigned before after e h =
      let (b, a) = All-split (λ e. e.actor < n) before (e ∷ after) h in
      IsAssigned-same (before ++ after) (All-append (λ e. e.actor < n) before after b a.1)

module _ (sock : Socket) (ep : Epoll) (efd : EventFd) where
  -- The connection is in a phase, and not closed.
  abbrev pub IsOpen : World ep.State efd.State → Entry sock.State → Type 0
  IsOpen w e = (p : Phase) × (p ≢ closed) × InPhase sock ep p w e.connection e.fd

  module _ (listen : ℕ) where
    -- Every connection is open, on a descriptor and at an address of its own; no other descriptor is
    -- registered but the listening socket's.
    pub record IsOrderly (w : World ep.State efd.State) (entries : List (Entry sock.State))
        : Type 0 where
      pub each : All (IsOpen w) entries
      pub own_fd : (fd : ℕ) → sum_of (fd_weight fd) entries ≤ 1
      pub own_address : (x : ℕ) → sum_of (address_weight x) entries ≤ 1
      pub not_null : sum_of (address_weight null) entries ≡ 0
      pub not_listen : sum_of (fd_weight listen) entries ≡ 0
      pub unlisted :
          (fd : ℕ)
          → fd ≢ listen
          → sum_of (fd_weight fd) entries ≡ 0
          → ep.registered w.epoll.epoll fd ≡ none

    -- The counter of active connections is their number, and each actor's queue holds those that wait
    -- for it.
    pub record IsSystem (s : State ep.State efd.State sock.State) : Type 0 where
      pub five : length s.world.server.server_stats.avg_micros ≡ 5
      pub some_actor : 0 < s.world.server.actor_count
      pub active : s.world.server.server_stats.active_connections ≡ length s.entries % 2 ^ 64
      pub orderly : IsOrderly s.world s.entries
      pub assigned : IsAssigned s.world.server.actor_count s.entries
      pub queues :
          (i : ℕ)
          → i < s.world.server.actor_count
          → HasQueue efd s.world.server.app_actors s.world.epoll.id (s.left i) s.entries i

  -- A phase depends on the world only by what is registered for the descriptor.
  pub InPhase-same :
      (p : Phase) (w w' : World ep.State efd.State) (c : Connection sock.State) (fd : ℕ)
      → ep.registered w'.epoll.epoll fd ≡ ep.registered w.epoll.epoll fd
      → InPhase sock ep p w c fd
      → InPhase sock ep p w' c fd
  InPhase-same reading w w' c fd same h = record {
    request = h.request;
    shape = h.shape;
    on_fd = h.on_fd;
    listed = same ∙ h.listed;
    sound = h.sound;
    no_output = h.no_output;
  }
  InPhase-same queued w w' c fd same h = record {
    request = h.request;
    shape = h.shape;
    on_fd = h.on_fd;
    unlisted = same ∙ h.unlisted;
    sound = h.sound;
    no_output = h.no_output;
  }
  InPhase-same writing w w' c fd same h = record {
    request = h.request;
    shape = h.shape;
    on_fd = h.on_fd;
    listed = same ∙ h.listed;
    sound = h.sound;
  }
  InPhase-same closed w w' c fd same h = record { shape = h.shape; unlisted = same ∙ h.unlisted }

  -- Connections on other descriptors stay in their phases.
  pub All-IsOpen :
      (w w' : World ep.State efd.State) (fd : ℕ) (entries : List (Entry sock.State))
      → ((other : ℕ)
          → other ≢ fd
          → ep.registered w'.epoll.epoll other ≡ ep.registered w.epoll.epoll other)
      → sum_of (fd_weight fd) entries ≡ 0
      → All (IsOpen w) entries
      → All (IsOpen w') entries
  All-IsOpen w w' fd entries others light h =
      All-light (IsOpen w) (IsOpen w') (fd_weight fd)
        (λ e apart at. (
          at.0,
          at.1,
          InPhase-same at.0 w w' e.connection e.fd (others e.fd (λ same. ground arith)) at.2,
        ))
        entries light h

  -- Who waits for an actor, by the phase.
  pub wait-queued :
      (w : World ep.State efd.State) (e : Entry sock.State) (i : ℕ) (test : ℕ → Bool)
      → InPhase sock ep queued w e.connection e.fd
      → wait_weight i test e ≡ (if e.actor == i then is_one (test e.connection.address) else 0)
  wait-queued w e i test h =
      let context : is_none e.connection.context ≡ true = ap (λ c. is_none c.context) h.shape in
      rw context refl

  pub queued_waits :
      (w : World ep.State efd.State) (e : Entry sock.State)
      → InPhase sock ep queued w e.connection e.fd
      → wait_weight e.actor (at_address e.connection.address) e ≡ 1
  queued_waits w e h = ground (arith, wait-queued w e e.actor (at_address e.connection.address) h)

  pub wait-not_queued :
      (p : Phase) (w : World ep.State efd.State) (e : Entry sock.State) (i : ℕ) (test : ℕ → Bool)
      → p ≢ closed
      → p ≢ queued
      → InPhase sock ep p w e.connection e.fd
      → wait_weight i test e ≡ 0
  wait-not_queued reading w e i test ne nq h =
      let context : is_none e.connection.context ≡ false = ap (λ c. is_none c.context) h.shape in
      rw context refl
  wait-not_queued writing w e i test ne nq h =
      let context : is_none e.connection.context ≡ false = ap (λ c. is_none c.context) h.shape in
      rw context refl
  wait-not_queued queued w e i test ne nq h = absurd (nq refl)
  wait-not_queued closed w e i test ne nq h = absurd (ne refl)

  -- Whether a connection is forgotten.
  pub kept-open :
      (p : Phase) (w : World ep.State efd.State) (e : Entry sock.State)
      → p ≢ closed
      → InPhase sock ep p w e.connection e.fd
      → kept e ≡ e ∷ []
  kept-open reading w e ne h =
      let request : is_none e.connection.request ≡ false = ap (λ c. is_none c.request) h.shape in
      rw request refl
  kept-open queued w e ne h =
      let request : is_none e.connection.request ≡ false = ap (λ c. is_none c.request) h.shape in
      rw request refl
  kept-open writing w e ne h =
      let request : is_none e.connection.request ≡ false = ap (λ c. is_none c.request) h.shape in
      rw request refl
  kept-open closed w e ne h = absurd (ne refl)

  pub kept-closed :
      (w : World ep.State efd.State) (e : Entry sock.State)
      → InPhase sock ep closed w e.connection e.fd
      → kept e ≡ []
  kept-closed w e h =
      let request : is_none e.connection.request ≡ true = ap (λ c. is_none c.request) h.shape in
      rw request refl
