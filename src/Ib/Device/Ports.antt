-- ===== src/Ib/Device/Ports.antt =====
-- Which ports ncclIbInit of src/unet/unet_ib.cc takes into the table of devices, and how it numbers
-- the ports of a card.
use nccl_exts.Prelude.{
  ℕ, ◌≤◌, ◌<◌, ◌≡◌, ◌⊎◌, Bool, true, List, [], ◌∷◌, ◌++◌, none, some, length, All, take,
}
use nccl_exts.Ib.Device.{PortAttr, Dev, dev_at, count_path}
use nccl_exts.Ib.Device.Discovery.{
  Config, Host, DeviceAttr, Devs, new_dev, is_usable, is_wanted, user_filter,
}
use nccl_exts.Ib.Device.Wanted.{AsksFor, IsUp, IsSpeed}

-- A property of the list of devices that each device added keeps is kept by ncclIbInit.
module _ {ℓ} (P : List Dev → Type ℓ) (config : Config) (empty : P [])
    (keeps : (host : Host) (merges : Bool) (d : ℕ) (attr : DeviceAttr) (port : ℕ) (a : PortAttr)
        (devs : List Dev)
      → is_wanted (user_filter config) (host.name d) port ≡ true
      → is_usable a ≡ true
      → P devs
      → P (devs ++ (new_dev config (user_filter config) host merges d attr port a devs ∷ []))) where
  abbrev Holds : Devs → Type ℓ
  Holds s = P s.devs

-- A device of the table: its port was asked for and is up, and its speed is the port's, at least
-- 100000 Mb/s.
pub record IsWanted (config : Config) (d : Dev) : Type 0 where
  pub wanted : AsksFor (user_filter config).search_not (user_filter config) d.dev_name d.port_num
  pub up : IsUp d.port_attr
  pub right_speed : IsSpeed d.port_attr d.speed
  pub fast : 100000 ≤ d.speed

-- A device that has a path has the number of devices in front of it on the same path as its real
-- port.
abbrev IsNumbered : List Dev → Dev → Type 0
IsNumbered before d = (d.pci_path ≡ none) ⊎ (d.real_port ≡ count_path d.pci_path before)

abbrev AreNumbered : List Dev → Type 0
AreNumbered devs = (i : ℕ) → i < length devs → IsNumbered (take i devs) (dev_at devs i)

abbrev IsListed : Config → List Dev → Type 0
IsListed config devs = All (IsWanted config) devs × AreNumbered devs

-- Devices on the same path are told apart by their real ports, in the order of the table.
abbrev pub AreToldApart : List Dev → Type 0
AreToldApart devs =
    (i j : ℕ) (p : List ℕ)
    → i < j
    → j < length devs
    → (dev_at devs i).pci_path ≡ some p
    → (dev_at devs j).pci_path ≡ some p
    → (dev_at devs i).real_port < (dev_at devs j).real_port
