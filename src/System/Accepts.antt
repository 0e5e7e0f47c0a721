-- ===== src/System/Accepts.antt =====
-- A new connection keeps the server in order.
use mathlib.Core.Path.{subst}
use jullop.Base.{ℕ, ◌≡◌, ◌≢◌, sym, ◌∙◌, ap, arith, true, ◌∷◌, done}
use jullop.Kernel.{Socket, Memory, Epoll, EventFd}
use jullop.Ring.Api.{null}
use jullop.Server.{World, Connection}
use jullop.IoWorker.{Accepted, accept_connection}
use jullop.Lifecycle.{reading}
use jullop.Lifecycle.Accept.{GoesWell, accept_lem}
use jullop.System.{Entry, State, fd_weight, address_weight}
use jullop.System.Sums.{sum_of}
use jullop.System.Invariant.{IsAssigned-same, IsSystem, wait-not_queued}
use jullop.System.Orderly.{added-IsOrderly}
use jullop.System.Handed.{queues_same}
use jullop.System.Phases.{reading-closed, reading-queued}
use jullop.System.Phases.{done-injective}

module _ (mem : Memory) (sock : Socket) (ep : Epoll) (efd : EventFd) (listen : ℕ)
    (s : State ep.State efd.State sock.State) (h : IsSystem sock ep efd listen s)
    (a : Accepted sock.State) where
  abbrev entry : Connection sock.State → Entry sock.State
  entry c = record { fd = a.conn_sock; actor = 0; connection = c }

  pub accepts-IsSystem :
      (w : World ep.State efd.State) (c : Connection sock.State)
      → mem.available 1024 ≡ true
      → GoesWell sock a
      → a.conn_sock ≢ listen
      → sum_of (fd_weight a.conn_sock) s.entries ≡ 0
      → a.address ≢ null
      → sum_of (address_weight a.address) s.entries ≡ 0
      → accept_connection mem ep a s.world ≡ done (w, c)
      → IsSystem sock ep efd listen (record s { world = w; entries = entry c ∷ s.entries })
  accepts-IsSystem w c memory well other_fd new_fd some_address new_address ran =
      let absent = h.orderly.unlisted a.conn_sock other_fd new_fd in
      let (w', c', runs, at, leaves, actors, same_address) =
        accept_lem mem sock ep a s.world memory well absent h.five in
      let new = entry c' in
      let orderly =
        added-IsOrderly sock ep efd listen s.world w' s.entries new h.orderly leaves.others
          (reading, reading-closed, at) new_fd
          (ap (λ z. sum_of (address_weight z) s.entries) same_address ∙ new_address)
          (λ z. some_address (sym same_address ∙ z)) other_fd in
      subst
        (λ z.
          IsSystem sock ep efd listen (record s { world = z.0; entries = entry z.1 ∷ s.entries }))
        (done-injective (w', c') (w, c) (sym runs ∙ ran))
        (record {
          five = leaves.five;
          some_actor = omega (arith, leaves.same_count, h.some_actor);
          active = omega (arith, leaves.active_is, h.active);
          orderly = orderly;
          assigned = IsAssigned-same leaves.same_count (new ∷ s.entries) (h.some_actor, h.assigned);
          queues =
              queues_same sock ep efd listen s w' (new ∷ s.entries) h actors leaves.same_worker
                leaves.same_count
                (λ i test. omega (
                  arith,
                  wait-not_queued sock ep efd reading w' new i test reading-closed reading-queued
                      at,
                ));
        })
