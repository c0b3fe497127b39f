-- ===== src/Ib/Listen/Listening.antt =====
-- What ncclIbListen of src/unet/unet_ib.cc hands out.
use nccl_exts.Prelude.{
  ℕ, ◌≡◌, inl, inr, refl, Bool, true, false, not, ◌&&◌, ◌||◌, Option-cases, Option, none, some,
  if◌then◌else◌, ◌==◌,
}
use nccl_exts.Prelude.Int.{pos, negsuc}
use nccl_exts.Prelude.Nccl.{NcclResult, ok, err, success, system_error}
use nccl_exts.Socket.{Socket, Family, inet, inet6, unspecified, ready, get_addr}
use nccl_exts.Socket.Opening
use nccl_exts.Socket.Opening.{Descriptors, socket_to_port}
use nccl_exts.Ib.Listen.{Listened, take_addr, take_listen, take_socket, listen}

-- A comm that is handed out listens on a descriptor, and the handle has its address.
abbrev IsListening : Listened → Type 0
IsListening (err e, rest) = Unit
IsListening (ok c, (h, closed)) =
    (c.sock.state ≡ ready)
    × (((fd : ℕ) × (c.sock.fd ≡ pos fd)) × ((h.connect_addr ≡ c.sock.addr) × (closed ≡ none)))

-- A socket behind a call, when it has succeeded.
abbrev Opens : NcclResult × Socket → Type 0
Opens (success, s) = (fd : ℕ) × (s.fd ≡ pos fd)
Opens (_, s) = Unit

abbrev Readies : NcclResult × Socket → Type 0
Readies (success, s) = (s.state ≡ ready) × ((fd : ℕ) × (s.fd ≡ pos fd))
Readies (_, s) = Unit

module _ (d : Descriptors) (dev : ℕ) where
  listen_on-Readies : (s : Socket) (fd : ℕ) → s.fd ≡ pos fd → Readies (Opening.listen_on d s)
  unfolding Opening.listen_on
  listen_on-Readies s fd e =
      go (not (socket_to_port d s.addr == 0) && not d.reuse) (not d.bind) d.bound_addr d.listen
    where
      go :
          (no_port no_bind : Bool) (bound : Option (Family × ℕ)) (listens : Bool)
          → Readies (
              if no_port
              then (system_error, s)
              else if no_bind
              then (system_error, s)
              else elim bound [
                | none ↦ (system_error, s)
                | some addr ↦
                    let t = record s { addr = some addr } in
                    if listens then (success, record t { state = ready }) else (system_error, t)
              ])
      go true b o l = tt
      go false true o l = tt
      go false false none l = tt
      go false false (some addr) true = (refl, (fd, e))
      go false false (some addr) false = tt

  take_listen-IsListening : (r : NcclResult × Socket) → Readies r → IsListening (take_listen dev r)
  unfolding take_listen take_addr get_addr
  take_listen-IsListening (success, s) (e, fd) = simp e (refl, (fd, (refl, refl)))
  take_listen-IsListening (_, s) h = tt

  take_socket-IsListening : (r : NcclResult × Socket) → Opens r → IsListening (take_socket d dev r)
  unfolding take_socket
  take_socket-IsListening (success, s) (fd, e) =
      take_listen-IsListening (Opening.listen_on d s) (listen_on-Readies s fd e)
  take_socket-IsListening (_, s) h = tt

  set_nonblocking-Opens :
      (s : Socket) (fd : ℕ) → s.fd ≡ pos fd → Opens (Opening.set_nonblocking d s)
  unfolding Opening.set_nonblocking
  set_nonblocking-Opens s fd e = go (
      (s.async_flag || s.abort_flag)
      && (elim s.fd [ pos n ↦ true | negsuc n ↦ false ] && not (d.get_flags && d.set_flags)))
    where
      go : (b : Bool) → Opens (if b then Opening.fail_init d system_error s else (success, s))
      go true = tt
      go false = (fd, e)

  open_for-Opens : (f : Family) (s : Socket) → Opens (Opening.open_for d f s)
  unfolding Opening.open_for
  open_for-Opens unspecified s = tt
  open_for-Opens inet s = elim (Option-cases (d.open_socket inet)) [
    | inl n ↦ simp (Opening.open_for, n) tt
    | inr (fd, e) ↦ simp (Opening.open_for, e) (set_nonblocking-Opens _ fd refl)
  ]
  open_for-Opens inet6 s = elim (Option-cases (d.open_socket inet6)) [
    | inl n ↦ simp (Opening.open_for, n) tt
    | inr (fd, e) ↦ simp (Opening.open_for, e) (set_nonblocking-Opens _ fd refl)
  ]

  -- The comm that ncclIbListen hands out listens on a descriptor that it owns, and the handle carries
  -- the address that the descriptor is bound to. Nothing of it is closed.
  listen-IsListening : (f : Family) (addr : ℕ) → IsListening (listen d (f, addr) dev)
  unfolding listen Opening.init
  listen-IsListening f addr = take_socket-IsListening _ (open_for-Opens f _)
