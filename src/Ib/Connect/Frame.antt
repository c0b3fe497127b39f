-- ===== src/Ib/Connect/Frame.antt =====
-- The steps of a set-up in src/unet/unet_ib.cc that leave the queue pairs of the comm alone.
use nccl_exts.Prelude.{
  ℕ, zero, suc, ◌≡◌, refl, ◌∙◌, Bool, true, false, List, [], ◌∷◌, Option, none, some, if◌then◌else◌,
}
use nccl_exts.Prelude.Nccl.{
  NcclResult, Result, ok, err, Action, ◌>>=◌, pure, fail_if, gets, modify, answered, from_result,
  Ends, Ends-chain, Ends-map,
}
use nccl_exts.Ib.Device.{Dev}
use nccl_exts.Ib.Meta.{DevInfo, Metadata, ConnParams}
use nccl_exts.Prelude.Int.{ℤ}
use nccl_exts.Ib.Connect.{
  GidInfo, push_fifo, push_sizes, push_gid, and_ar, set_remote, ConnHost, Conn, init_dev, take_base,
  init_devs, ask_ece, local_gid, find_gid, reg_fifo, publish_dev, publish_devs, reg_size, reg_sizes,
  take_remote,
}

module _ (p : ConnParams) (devs : List Dev) (host : ConnHost) where
  -- An action that changes neither base nor the states of the queue pairs when it succeeds.
  abbrev pub Leaves : {A : Type 0} → Action Conn A → Type 0
  Leaves m =
      (s : Conn) → Ends (λ _ t. (t.base ≡ s.base) × (t.states ≡ s.states)) (λ _ _. Unit {0}) (m s)

  pub Leaves-chain :
      {A B : Type 0} (m : Action Conn A) (f : A → Action Conn B)
      → Leaves m
      → ((a : A) → Leaves (f a))
      → Leaves (m >>= f)
  Leaves-chain m f h k s =
      Ends-chain (λ _ t. (t.base ≡ s.base) × (t.states ≡ s.states))
        (λ _ t. (t.base ≡ s.base) × (t.states ≡ s.states)) (λ _ _. Unit) m f s (h s)
        (λ a t e.
          Ends-map (λ _ u. (u.base ≡ t.base) × (u.states ≡ t.states)) (λ _ _. Unit)
            (λ _ u. (u.base ≡ s.base) × (u.states ≡ s.states)) (λ _ _. Unit) (f a t)
            (λ _ u d. (d.0 ∙ e.0, d.1 ∙ e.1)) (λ _ u d. tt) (k a t))

  pub pure-Leaves : {A : Type 0} (a : A) → Leaves (pure a)
  pure-Leaves a s = (refl, refl)

  pub answered-Leaves : {A : Type 0} (o : Option A) → Leaves (answered o)
  answered-Leaves none s = tt
  answered-Leaves (some a) s = (refl, refl)

  pub from_result-Leaves : {A : Type 0} (r : Result A) → Leaves (from_result r)
  from_result-Leaves (err e) s = tt
  from_result-Leaves (ok a) s = (refl, refl)

  pub fail_if-Leaves : (b : Bool) (e : NcclResult) → Leaves (fail_if b e)
  fail_if-Leaves true e s = tt
  fail_if-Leaves false e s = (refl, refl)

  pub push_fifo-Leaves : (key : ℕ) → Leaves (modify (push_fifo key))
  unfolding push_fifo
  push_fifo-Leaves key s = (refl, refl)

  pub push_sizes-Leaves : (key : ℕ) → Leaves (modify (push_sizes key))
  unfolding push_sizes
  push_sizes-Leaves key s = (refl, refl)

  pub push_gid-Leaves : (gid : Option GidInfo) → Leaves (modify (push_gid gid))
  unfolding push_gid
  push_gid-Leaves gid s = (refl, refl)

  pub and_ar-Leaves : (ar : ℤ) → Leaves (modify (and_ar ar))
  unfolding and_ar
  and_ar-Leaves ar s = (refl, refl)

  pub gets-Leaves : {A : Type 0} (f : Conn → A) → Leaves (gets f)
  gets-Leaves f s = (refl, refl)

  pub if-Leaves :
      {A : Type 0} (b : Bool) (m k : Action Conn A)
      → Leaves m
      → Leaves k
      → Leaves (if b then m else k)
  if-Leaves true m k hm hk = hm
  if-Leaves false m k hm hk = hk

  pub take_base-Leaves : (i : ℕ) (out : _) → Leaves (take_base p devs host i out)
  unfolding take_base
  take_base-Leaves i (err e, d) s = tt
  take_base-Leaves i (ok b, d) s = (refl, refl)

  pub init_dev-Leaves : (i : ℕ) → Leaves (init_dev p devs host i)
  unfolding init_dev
  init_dev-Leaves i s = take_base-Leaves i _ s

  pub init_devs-Leaves : (dev : ℕ) (ns : List ℕ) → Leaves (init_devs p devs host dev ns)
  unfolding init_devs
  init_devs-Leaves dev [] = pure-Leaves tt
  init_devs-Leaves dev (k ∷ ns) =
      search (Leaves-chain, init_dev-Leaves, and_ar-Leaves, init_devs-Leaves dev ns)

  pub reg_fifo-Leaves : (i : ℕ) → Leaves (reg_fifo p devs host i)
  unfolding reg_fifo
  reg_fifo-Leaves i = search (Leaves-chain, answered-Leaves, push_fifo-Leaves)

  pub local_gid-Leaves : (i : ℕ) → Leaves (local_gid p devs host i)
  unfolding local_gid
  local_gid-Leaves i = search (Leaves-chain, from_result-Leaves, answered-Leaves, pure-Leaves)

  pub find_gid-Leaves : (i : ℕ) → Leaves (find_gid p devs host i)
  unfolding find_gid
  find_gid-Leaves i = search (if-Leaves, Leaves-chain, local_gid-Leaves, pure-Leaves)

  pub publish_dev-Leaves : (i : ℕ) → Leaves (publish_dev p devs host i)
  unfolding publish_dev
  publish_dev-Leaves i =
      search (Leaves-chain, reg_fifo-Leaves, gets-Leaves, find_gid-Leaves, push_gid-Leaves)

  pub publish_devs-Leaves : (left i : ℕ) → Leaves (publish_devs p devs host left i)
  unfolding publish_devs
  publish_devs-Leaves zero i = pure-Leaves {A = List DevInfo} []
  publish_devs-Leaves (suc left) i =
      search (Leaves-chain, publish_dev-Leaves, publish_devs-Leaves left, pure-Leaves)

  pub ask_ece-Leaves : (q : ℕ) → Leaves (ask_ece p devs host q)
  unfolding ask_ece
  ask_ece-Leaves q = search (if-Leaves, answered-Leaves, pure-Leaves)

  pub reg_sizes-Leaves : (left i : ℕ) → Leaves (reg_sizes p devs host left i)
  unfolding reg_sizes reg_size
  reg_sizes-Leaves zero i = pure-Leaves tt
  reg_sizes-Leaves (suc left) i =
      search (Leaves-chain, answered-Leaves, push_sizes-Leaves, reg_sizes-Leaves left)

  pub set_remote-Leaves : (meta : Metadata) → Leaves (modify (set_remote meta))
  unfolding set_remote
  set_remote-Leaves meta s = (refl, refl)

  pub take_remote-Leaves : (meta : Metadata) → Leaves (take_remote p devs host meta)
  unfolding take_remote
  take_remote-Leaves meta =
      search (Leaves-chain, fail_if-Leaves, set_remote-Leaves, gets-Leaves, reg_sizes-Leaves)
