-- ===== src/EpollInfo.antt =====
-- src/epoll_info.c: the registration of descriptors. Logging and the allocation of `EpollInfo` are
-- left out; `id` is its field.

use jullop.Base.{ℕ, Option, none, some, Bool, not, Outcome, done, exit_failure, ◌>>◌, check}
use jullop.Kernel.{Epoll, input_events, output_events}

-- `struct EpollInfo`; `S` is the state of the epoll instance in the kernel.
pub record EpollInfo (S : Type 0) : Type 0 where
  pub epoll : S
  pub id : ℕ

-- The CHECK of the result of epoll_ctl.
abbrev pub check_ctl : {S : Type 0} → EpollInfo S → Option S → Outcome (EpollInfo S)
check_ctl e none = exit_failure
check_ctl e (some t) = done (record e { epoll = t })

module _ (ep : Epoll) where
  -- Whether the allocation succeeds, and what epoll_create gives.
  unfoldable pub epoll_info_init : Bool → Option ep.State → ℕ → Outcome (EpollInfo ep.State)
  epoll_info_init struct_mem created id = do
    check (not struct_mem)
    elim created [ none ↦ exit_failure | some s ↦ done (record { epoll = s; id = id }) ]

  unfoldable pub add_input_epoll_event : EpollInfo ep.State → ℕ → ℕ → Outcome (EpollInfo ep.State)
  add_input_epoll_event e fd ptr = check_ctl e (ep.ctl_add e.epoll fd (input_events, ptr))

  unfoldable pub add_output_epoll_event : EpollInfo ep.State → ℕ → ℕ → Outcome (EpollInfo ep.State)
  add_output_epoll_event e fd ptr = check_ctl e (ep.ctl_add e.epoll fd (output_events, ptr))

  unfoldable pub mod_input_epoll_event : EpollInfo ep.State → ℕ → ℕ → Outcome (EpollInfo ep.State)
  mod_input_epoll_event e fd ptr = check_ctl e (ep.ctl_mod e.epoll fd (input_events, ptr))

  unfoldable pub mod_output_epoll_event : EpollInfo ep.State → ℕ → ℕ → Outcome (EpollInfo ep.State)
  mod_output_epoll_event e fd ptr = check_ctl e (ep.ctl_mod e.epoll fd (output_events, ptr))

  unfoldable pub delete_epoll_event : EpollInfo ep.State → ℕ → Outcome (EpollInfo ep.State)
  delete_epoll_event e fd = check_ctl e (ep.ctl_del e.epoll fd)
