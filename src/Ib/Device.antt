-- ===== src/Ib/Device.antt =====
-- The table of InfiniBand devices of src/unet/unet_ib.cc: ncclIbDevs, ncclIbMergedDevs, how a port
-- becomes a device and devices become a merged one. An index is a position in these lists; the
-- counts ncclNIbDevs and ncclNMergedIbDevs are their lengths. A device's memory-region cache is in
-- Ib.MrCache, and the device's context goes by its position in the list of ibv devices.
pub mod Speed
pub mod Discovery
pub mod Merging
pub mod Passes
mod Wanted
pub mod Ports
pub mod Support
mod Tests
use nccl_exts.Prelude.{
  ℕ, zero, suc, ◌+◌, ◌-◌, ◌*◌, Bool, true, false, not, ◌&&◌, ◌||◌, List, [], ◌∷◌, ◌++◌, Option,
  none, some, ◌==◌, leb, if◌then◌else◌, length, get_or, set,
}
use nccl_exts.Prelude.Int.{ℤ, pos, negsuc}
use nccl_exts.Interfaces.{equal_up_to, same_int}
use nccl_exts.Ib.Device.Speed.{ib_speed, ib_width}

-- IBV_LINK_LAYER_*.
pub data LinkLayer : Type 0 where
  unspecified infiniband ethernet : LinkLayer

-- struct ibv_port_attr, as far as it is read: `is_active` is state == IBV_PORT_ACTIVE and
-- `grh_required` is flags & IBV_QPF_GRH_REQUIRED.
pub record PortAttr : Type 0 where
  pub is_active : Bool
  pub phys_state : ℕ
  pub link_layer : LinkLayer
  pub active_speed : ℕ
  pub active_width : ℕ
  pub active_mtu : ℕ
  pub lid : ℕ
  pub gid_tbl_len : ℕ
  pub grh_required : Bool

abbrev pub blank_attr : PortAttr
blank_attr = record {
  is_active = false;
  phys_state = 0;
  link_layer = unspecified;
  active_speed = 0;
  active_width = 0;
  active_mtu = 0;
  lid = 0;
  gid_tbl_len = 0;
  grh_required = false;
}

-- struct ncclIbDev. `pci_path` is `none` for a null pointer.
pub record Dev : Type 0 where
  pub device : ℕ
  pub guid : ℕ
  pub port_num : ℕ
  pub link : LinkLayer
  pub speed : ℕ
  pub pd_refs : ℕ
  pub dev_name : List ℕ
  pub pci_path : Option (List ℕ)
  pub real_port : ℕ
  pub max_qp : ℕ
  pub ar : ℤ
  pub port_attr : PortAttr
  pub fatal_errors : ℕ

abbrev pub blank_dev : Dev
blank_dev = record {
  device = 0;
  guid = 0;
  port_num = 0;
  link = unspecified;
  speed = 0;
  pd_refs = 0;
  dev_name = [];
  pci_path = none;
  real_port = 0;
  max_qp = 0;
  ar = pos 0;
  port_attr = blank_attr;
  fatal_errors = 0;
}

-- struct ncclIbMergedDev: `devs` is the part of the array below ndevs.
pub record Merged : Type 0 where
  pub devs : List ℕ
  pub speed : ℕ
  pub dev_name : List ℕ

abbrev pub max_ib_devs : ℕ
max_ib_devs = 32

-- NCCL_IB_MAX_DEVS_PER_NIC.
abbrev pub max_devs_per_nic : ℕ
max_devs_per_nic = 2

abbrev pub dev_at : List Dev → ℕ → Dev
dev_at devs i = get_or devs i blank_dev

abbrev pub same_link : LinkLayer → LinkLayer → Bool
same_link unspecified unspecified = true
same_link infiniband infiniband = true
same_link ethernet ethernet = true
same_link _ _ = false

-- strcmp(a, b) == 0. A null path is no path's equal, where strcmp is undefined.
abbrev pub same_path : Option (List ℕ) → Option (List ℕ) → Bool
same_path (some a) (some b) = equal_up_to (suc (length a)) a b
same_path _ _ = false

-- The edits of ncclIbGetPciPath: the last character, which tells the port, and with MERGE_VFS the two
-- that tell the virtual function become '0'.
unfoldable pub merge_path : Bool → List ℕ → List ℕ
merge_path merge_vfs p =
    let port = set p (length p - 1) 48 in
    if merge_vfs then set (set port (length p - 4) 48) (length p - 3) 48 else port

-- The loop that counts the devices on a path.
unfoldable pub count_path : Option (List ℕ) → List Dev → ℕ
count_path p [] = 0
count_path p (d ∷ devs) = (if same_path p d.pci_path then 1 else 0) + count_path p devs

-- ncclIbGetPciPath by realpath's answer: the path and the real port, which a failure leaves as it
-- was.
unfoldable pub get_pci_path : Bool → Option (List ℕ) → ℕ → List Dev → Option (List ℕ) × ℕ
get_pci_path merge_vfs none real_port devs = (none, real_port)
get_pci_path merge_vfs (some p) real_port devs =
    (some (merge_path merge_vfs p), count_path (some (merge_path merge_vfs p)) devs)

-- The comparison of ncclIbFindMatchingDev.
abbrev pub is_alike : Dev → Dev → Bool
is_alike a b = same_path a.pci_path b.pci_path && ((a.guid == b.guid) && same_link a.link b.link)

-- devs[0] of a merged device.
abbrev pub first_dev : Merged → ℕ
first_dev m = get_or m.devs 0 0

-- ncclIbFindMatchingDev: the first merged device with room whose first device is like `dev`, or the
-- count of merged devices.
unfoldable pub find_matching_dev : Dev → List Dev → List Merged → ℕ
find_matching_dev dev devs [] = 0
find_matching_dev dev devs (m ∷ merged) =
    let rest = suc (find_matching_dev dev devs merged) in
    if leb max_devs_per_nic (length m.devs)
    then rest
    else if is_alike dev (dev_at devs (first_dev m))
    then 0
    else rest

-- Device number n goes into merged device `i`: a new one behind the last, or one more of the i-th,
-- with its name behind a '+'. The speed is added up.
unfoldable pub put_dev : ℕ → Dev → ℕ → List Merged → List Merged
put_dev i dev n [] = record { devs = n ∷ []; speed = dev.speed; dev_name = dev.dev_name } ∷ []
put_dev zero dev n (m ∷ merged) =
    record {
      devs = m.devs ++ (n ∷ []);
      speed = m.speed + dev.speed;
      dev_name = m.dev_name ++ (43 ∷ dev.dev_name);
    }
    ∷ merged
put_dev (suc i) dev n (m ∷ merged) = m ∷ put_dev i dev n merged
