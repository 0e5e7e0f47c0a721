-- ===== src/System/Orderly.antt =====
-- The list of connections, when one changes, is closed, or is new.
use jullop.Base.{ℕ, ◌+◌, ◌≡◌, ◌≢◌, sym, ◌∙◌, ap, arith, List, [], ◌∷◌, ◌++◌, none, ◌==◌, ℕ_discrete}
use jullop.Kernel.{Socket, Epoll, EventFd}
use jullop.Ring.Api.{null}
use jullop.Server.{World}
use jullop.System.{Entry, fd_weight, address_weight, is_one}
use jullop.System.Sums.{sum_of, sum_of-middle, sum_of-removed, All, All-append, All-split}
use jullop.System.Invariant.{IsOpen, IsOrderly, All-IsOpen, InPhase-same}

weighs_one : (x : ℕ) → is_one (x == x) ≡ 1
weighs_one x = ground arith

weightless-apart : (x y : ℕ) → is_one (x == y) ≡ 0 → y ≢ x
weightless-apart x y light same = ground arith

apart-weightless : (x y : ℕ) → y ≢ x → is_one (x == y) ≡ 0
apart-weightless x y ne = ground arith

module _ (sock : Socket) (ep : Epoll) (efd : EventFd) (listen : ℕ) (w w' : World ep.State efd.State)
    (before after : List (Entry sock.State)) (e : Entry sock.State)
    (h : IsOrderly sock ep efd listen w (before ++ (e ∷ after)))
    (others : (other : ℕ)
      → other ≢ e.fd
      → ep.registered w'.epoll.epoll other ≡ ep.registered w.epoll.epoll other) where
  -- The connections around one that a step works on.
  others_around : All (IsOpen sock ep efd w') before × All (IsOpen sock ep efd w') after
  others_around =
      let (b, a) = All-split (IsOpen sock ep efd w) before (e ∷ after) h.each in
      let at_most = h.own_fd e.fd in
      let parts = sum_of-middle (fd_weight e.fd) before e after in
      let here = weighs_one e.fd in
      (
        All-IsOpen sock ep efd w w' e.fd before others (omega (arith, at_most, parts, here)) b,
        All-IsOpen sock ep efd w w' e.fd after others (omega (arith, at_most, parts, here)) a.1,
      )

  pub replaced-IsOrderly :
      (e' : Entry sock.State)
      → e'.fd ≡ e.fd
      → e'.connection.address ≡ e.connection.address
      → IsOpen sock ep efd w' e'
      → IsOrderly sock ep efd listen w' (before ++ (e' ∷ after))
  replaced-IsOrderly e' same_fd same_address at =
      let (b, a) = others_around in
      let fds = λ (fd : ℕ).
        sum_of-middle (fd_weight fd) before e' after
        ∙ ap (λ z. sum_of (fd_weight fd) before + (is_one (z == fd) + sum_of (fd_weight fd) after))
            same_fd
        ∙ sym (sum_of-middle (fd_weight fd) before e after) in
      let addresses = λ (x : ℕ).
        sum_of-middle (address_weight x) before e' after
        ∙ ap
            (λ z.
              sum_of (address_weight x) before
              + (is_one (z == x) + sum_of (address_weight x) after))
            same_address
        ∙ sym (sum_of-middle (address_weight x) before e after) in
      record {
        each = All-append (IsOpen sock ep efd w') before (e' ∷ after) b (at, a);
        own_fd = λ fd. omega (arith, fds fd, h.own_fd fd);
        own_address = λ x. omega (arith, addresses x, h.own_address x);
        not_null = addresses null ∙ h.not_null;
        not_listen = fds listen ∙ h.not_listen;
        unlisted = λ fd ne light.
            let old = sym (fds fd) ∙ light in
            let lone : is_one (e.fd == fd) ≡ 0 =
              omega (arith, old, sum_of-middle (fd_weight fd) before e after) in
            others fd (weightless-apart e.fd fd lone) ∙ h.unlisted fd ne old;
      }

  pub removed-IsOrderly :
      ep.registered w'.epoll.epoll e.fd ≡ none → IsOrderly sock ep efd listen w' (before ++ after)
  removed-IsOrderly gone =
      let (b, a) = others_around in
      let fds = λ (fd : ℕ). sum_of-removed (fd_weight fd) before e after in
      let addresses = λ (x : ℕ). sum_of-removed (address_weight x) before e after in
      record {
        each = All-append (IsOpen sock ep efd w') before after b a;
        own_fd = λ fd. omega (arith, fds fd, h.own_fd fd);
        own_address = λ x. omega (arith, addresses x, h.own_address x);
        not_null = omega (arith, addresses null, h.not_null);
        not_listen = omega (arith, fds listen, h.not_listen);
        unlisted = λ fd ne light. elim (ℕ_discrete fd e.fd) [
          | yes same ↦ ap (ep.registered w'.epoll.epoll) same ∙ gone
          | no apart ↦
              others fd apart
              ∙ h.unlisted fd ne (omega (arith, light, fds fd, apart-weightless e.fd fd apart))
        ];
      }

module _ (sock : Socket) (ep : Epoll) (efd : EventFd) (listen : ℕ) (w w' : World ep.State efd.State)
    (entries : List (Entry sock.State)) where
  pub added-IsOrderly :
      (e : Entry sock.State)
      → IsOrderly sock ep efd listen w entries
      → ((other : ℕ)
          → other ≢ e.fd
          → ep.registered w'.epoll.epoll other ≡ ep.registered w.epoll.epoll other)
      → IsOpen sock ep efd w' e
      → sum_of (fd_weight e.fd) entries ≡ 0
      → sum_of (address_weight e.connection.address) entries ≡ 0
      → e.connection.address ≢ null
      → e.fd ≢ listen
      → IsOrderly sock ep efd listen w' (e ∷ entries)
  added-IsOrderly e h others at new_fd new_address some_address other_fd = record {
    each = (at, All-IsOpen sock ep efd w w' e.fd entries others new_fd h.each);
    own_fd = λ fd. elim (ℕ_discrete e.fd fd) [
      | yes same ↦
          let light : sum_of (fd_weight fd) entries ≡ 0 =
            ap (λ z. sum_of (fd_weight z) entries) (sym same) ∙ new_fd in
          ground (arith, light)
      | no apart ↦ ground (arith, h.own_fd fd)
    ];
    own_address = λ x. elim (ℕ_discrete e.connection.address x) [
      | yes same ↦
          let light : sum_of (address_weight x) entries ≡ 0 =
            ap (λ z. sum_of (address_weight z) entries) (sym same) ∙ new_address in
          ground (arith, light)
      | no apart ↦ ground (arith, h.own_address x)
    ];
    not_null =
        omega (
          arith,
          h.not_null,
          apart-weightless e.connection.address null (λ z. some_address (sym z)),
        );
    not_listen = omega (arith, h.not_listen, apart-weightless e.fd listen (λ z. other_fd (sym z)));
    unlisted = λ fd ne light.
        others fd (weightless-apart e.fd fd (omega (arith, light)))
        ∙ h.unlisted fd ne (omega (arith, light));
  }

  -- The worker's epoll instance is as it was.
  pub same-IsOrderly :
      w'.epoll ≡ w.epoll
      → IsOrderly sock ep efd listen w entries
      → IsOrderly sock ep efd listen w' entries
  same-IsOrderly same h =
      let registered = λ (fd : ℕ). ap (λ z. ep.registered z.epoll fd) same in
      record {
        each = opens entries h.each;
        own_fd = h.own_fd;
        own_address = h.own_address;
        not_null = h.not_null;
        not_listen = h.not_listen;
        unlisted = λ fd ne light. registered fd ∙ h.unlisted fd ne light;
      }
    where
      opens :
          (l : List (Entry sock.State))
          → All (IsOpen sock ep efd w) l
          → All (IsOpen sock ep efd w') l
      opens [] k = tt
      opens (e ∷ l) k = (
        (
          k.0.0,
          k.0.1,
          InPhase-same sock ep efd k.0.0 w w' e.connection e.fd
              (ap (λ z. ep.registered z.epoll e.fd) same) k.0.2,
        ),
        opens l k.1,
      )
