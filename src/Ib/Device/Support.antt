-- ===== src/Ib/Device/Support.antt =====
-- What a merged device supports, as src/unet/unet_ib.cc tells NCCL: ncclIbGdrSupport,
-- ncclIbDmaBufSupport and ncclIbGetProperties. Each support is looked up once (pthread_once).
use nccl_exts.Prelude.{
  ℕ, zero, suc, ◌+◌, ◌<◌, ◌≡◌, ◌↔◌, ◌⊎◌, refl, Bool, true, false, not, ◌||◌, List, [], ◌∷◌, Option,
  none, some, arith, Bool-cases, inl, inr, ap, if◌then◌else◌, get_or, set, length, All,
  get_or-set_self,
}
use nccl_exts.Prelude.Nccl.{NcclResult, success, system_error}
use nccl_exts.Ib.Device.{Dev, Merged, dev_at, first_dev}

-- dmaBufSupported: 0, 1 and -1.
pub data DmaBuf : Type 0 where
  uninit yes no : DmaBuf

-- `gdr` is ncclIbGdrModuleLoaded, `none` until it is looked up, and `dma_buf` holds the merged
-- devices' dmaBufSupported.
pub record Support : Type 0 where
  pub gdr : Option Bool
  pub dma_buf : List DmaBuf

-- The answers for a device: wrap_ibv_alloc_pd, EOPNOTSUPP or EPROTONOSUPPORT after the dummy
-- registration, wrap_ibv_dealloc_pd.
pub record Probe : Type 0 where
  pub alloc_pd : ℕ → Bool
  pub unsupported : ℕ → Bool
  pub dealloc_pd : ℕ → Bool

-- ncclIbGdrSupport, by the three files that tell of a loaded module.
unfoldable pub gdr_support : Bool → Bool → Bool → Support → NcclResult × Support
gdr_support nv_mem nv_mem_nc nvidia_peermem s =
    let loaded : Bool = elim s.gdr [
      | some known ↦ known
      | none ↦ nv_mem || (nv_mem_nc || nvidia_peermem)
    ] in
    (if loaded then success else system_error, record s { gdr = some loaded })

-- The loop of ibDmaBufSupportInitOnce over the devices of a merged one.
unfoldable pub probe_devs : Probe → List ℕ → DmaBuf
probe_devs p [] = yes
probe_devs p (i ∷ is) =
    let rest = probe_devs p is in
    if not (p.alloc_pd i)
    then no
    else if not (p.dealloc_pd i)
    then no
    else if p.unsupported i
    then no
    else rest

unfoldable pub dma_buf_result : DmaBuf → NcclResult
dma_buf_result yes = success
dma_buf_result _ = system_error

-- What `pthread_once` leaves in dmaBufSupported.
unfoldable pub init_once : Probe → List ℕ → DmaBuf → DmaBuf
init_once p devs uninit = probe_devs p devs
init_once p devs known = known

-- ncclIbDmaBufSupport for merged device `dev`, which has the devices `devs`.
unfoldable pub dma_buf_support : Probe → List ℕ → ℕ → Support → NcclResult × Support
dma_buf_support p devs dev s =
    let known = init_once p devs (get_or s.dma_buf dev uninit) in
    (dma_buf_result known, record s { dma_buf = set s.dma_buf dev known })

-- ncclNetProperties_t; NCCL_PTR_HOST, NCCL_PTR_CUDA and NCCL_PTR_DMABUF are 1, 2 and 4, the
-- netDeviceType is NCCL_NET_DEVICE_HOST.
pub record Properties : Type 0 where
  pub name : List ℕ
  pub speed : ℕ
  pub pci_path : Option (List ℕ)
  pub guid : ℕ
  pub ptr_support : ℕ
  pub reg_is_global : ℕ
  pub latency : ℕ
  pub port : ℕ
  pub max_comms : ℕ
  pub max_recvs : ℕ
  pub net_device_version : ℕ

abbrev if_success : NcclResult → ℕ → ℕ
if_success success n = n
if_success _ n = 0

-- ncclIbGetProperties by the results of the two support calls.
unfoldable pub get_properties : List Dev → Merged → NcclResult → NcclResult → Properties
get_properties devs m gdr dma_buf =
    let d = dev_at devs (first_dev m) in
    record {
      name = m.dev_name;
      speed = m.speed;
      pci_path = d.pci_path;
      guid = d.guid;
      ptr_support = 1 + if_success gdr 2 + if_success dma_buf 4;
      reg_is_global = 1;
      latency = 0;
      port = d.port_num + d.real_port;
      max_comms = d.max_qp;
      max_recvs = 8;
      net_device_version = 120;
    }

-- The probe of a device finds DMA-BUF.
abbrev pub IsProbed : Probe → ℕ → Type 0
IsProbed p i = (p.alloc_pd i ≡ true) × ((p.dealloc_pd i ≡ true) × (p.unsupported i ≡ false))

probe_devs-yes : (p : Probe) (devs : List ℕ) → All (IsProbed p) devs → probe_devs p devs ≡ yes
unfolding probe_devs
probe_devs-yes p [] h = refl
probe_devs-yes p (i ∷ is) ((a, (d, u)), h) = rw (a, d, u) (probe_devs-yes p is h)

-- A search that does not find a failing device has tried them all.
probe_devs-cases :
    (p : Probe) (devs : List ℕ)
    → (All (IsProbed p) devs × (probe_devs p devs ≡ yes)) ⊎ (probe_devs p devs ≡ no)
unfolding probe_devs
probe_devs-cases p [] = inl (tt, refl)
probe_devs-cases p (i ∷ is) = elim (Bool-cases (p.alloc_pd i)) [
  | inr a ↦ rw a (inr refl)
  | inl a ↦ elim (Bool-cases (p.dealloc_pd i)) [
    | inr d ↦ rw (a, d) (inr refl)
    | inl d ↦ elim (Bool-cases (p.unsupported i)) [
      | inl u ↦ rw (a, d, u) (inr refl)
      | inr u ↦ elim (probe_devs-cases p is) [
        | inl (h, e) ↦ rw (a, d, u) (inl (((refl, (refl, refl)), h), e))
        | inr e ↦ rw (a, d, u) (inr e)
      ]
    ]
  ]
]

-- What a merged device answers to the first call, and to all later ones.
pub record Answers (p : Probe) (devs : List ℕ) (dev : ℕ) (s : Support) (out : NcclResult × Support)
    : Type 0 where
  pub first_call : get_or s.dma_buf dev uninit ≡ uninit → (out.0 ≡ success) ↔ All (IsProbed p) devs
  pub later_calls : (q : Probe) (others : List ℕ) → dma_buf_support q others dev out.1 ≡ out

init_once-known :
    (p q : Probe) (devs others : List ℕ) (d : DmaBuf)
    → init_once q others (init_once p devs d) ≡ init_once p devs d
unfolding init_once
init_once-known p q devs others uninit = elim (probe_devs-cases p devs) [
  | inl (h, e) ↦ rw e refl
  | inr e ↦ rw e refl
]
init_once-known p q devs others yes = refl
init_once-known p q devs others no = refl

set-set_self : (xs : List DmaBuf) (i : ℕ) (v : DmaBuf) → set (set xs i v) i v ≡ set xs i v
set-set_self [] i v = refl
set-set_self (x ∷ xs) zero v = refl
set-set_self (x ∷ xs) (suc i) v = ap (x ∷◌) (set-set_self xs i v)

init_once-success :
    (p : Probe) (devs : List ℕ)
    → (dma_buf_result (init_once p devs uninit) ≡ success) ↔ All (IsProbed p) devs
unfolding init_once dma_buf_result
init_once-success p devs = (
  λ e. elim (probe_devs-cases p devs) [
    | inl (h, y) ↦ h
    | inr n ↦ let clash : system_error ≡ success = rw n at e in absurd (ground arith)
  ],
  λ h. rw (probe_devs-yes p devs h) refl,
)

-- The first call of ncclIbDmaBufSupport for a merged device succeeds exactly when the probes of
-- all its devices do, and every later call, whatever the probes would answer then, gives the same
-- result and changes nothing.
pub dma_buf_support-Answers :
    (p : Probe) (devs : List ℕ) (dev : ℕ) (s : Support)
    → dev < length s.dma_buf
    → Answers p devs dev s (dma_buf_support p devs dev s)
unfolding dma_buf_support
dma_buf_support-Answers p devs dev s l =
    let known = init_once p devs (get_or s.dma_buf dev uninit) in
    record {
      first_call = λ e. rw e (init_once-success p devs);
      later_calls = λ q others.
          rw
            (
              get_or-set_self s.dma_buf dev known uninit l,
              init_once-known p q devs others (get_or s.dma_buf dev uninit),
              set-set_self s.dma_buf dev known,
            )
            refl;
    }
