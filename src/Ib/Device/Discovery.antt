-- ===== src/Ib/Device/Discovery.antt =====
-- ncclIbInit of src/unet/unet_ib.cc: the loops over the devices and their ports, and building the
-- list again without merging when the merged devices differ in size. It runs under ncclIbLock.
use nccl_exts.Prelude.{
  ℕ, zero, suc, ◌*◌, Bool, true, false, not, ◌&&◌, ◌||◌, List, [], ◌∷◌, ◌++◌, Option, none, some,
  ◌==◌, leb, if◌then◌else◌, length,
}
use nccl_exts.Prelude.Int.{ℤ, pos, negsuc, ltb_ℤ}
use nccl_exts.Prelude.Nccl.{
  Result, ok, err, internal_error, system_error, Action, ◌>>=◌, ◌>>◌, pure, fail, fail_if, modify,
}
use nccl_exts.Interfaces.{NetIf, match_if_list, parse_string_list, same_int}
use nccl_exts.Ib.Device.{
  infiniband, ethernet, PortAttr, Dev, Merged, max_ib_devs, same_link, get_pci_path,
  find_matching_dev, put_dev,
}
use nccl_exts.Ib.Device.Speed.{ib_speed, ib_width}

-- struct ibv_device_attr, as far as it is read.
pub record DeviceAttr : Type 0 where
  pub sys_image_guid : ℕ
  pub phys_port_cnt : ℕ
  pub max_qp : ℕ

-- What the verbs library and the system answer while the list is built: `opens d` says that a device
-- was opened and its context is not null, `query_device` and `query_port` are `none` on a failure,
-- `real_path` is realpath's answer for the name of a device.
pub record Host : Type 0 where
  pub opens : ℕ → Bool
  pub closes : ℕ → Bool
  pub query_device : ℕ → Option DeviceAttr
  pub query_port : ℕ → ℕ → Option PortAttr
  pub name : ℕ → List ℕ
  pub real_path : List ℕ → Option (List ℕ)
  pub create_thread : ℕ → Bool
  pub detach_thread : ℕ → Bool

-- The environment and the parameters: NCCL_UNET_DISABLE, NCCL_IB_HCA, IB_MERGE_NICS, IB_MERGE_VFS,
-- IB_ADAPTIVE_ROUTING, IB_PCI_RELAXED_ORDERING, the value of the first of RANK and
-- OMPI_COMM_WORLD_RANK that is not empty, IBV_ACCESS_RELAXED_ORDERING being supported, and the C
-- library's atoi.
pub record Config : Type 0 where
  pub disabled : Bool
  pub user_ib_env : Option (List ℕ)
  pub merge_nics : Bool
  pub merge_vfs : Bool
  pub adaptive_routing : ℤ
  pub relaxed_ordering : ℕ
  pub rank_env : Option ℤ
  pub has_relaxed_ordering : Bool
  pub atoi : List ℕ → ℤ

-- The static variables: `is_known` is ncclNIbDevs != -1.
pub record Devs : Type 0 where
  pub is_known : Bool
  pub devs : List Dev
  pub merged : List Merged
  pub relaxed_ordering_enabled : Bool
  pub rank : ℤ

-- A filter of devices: `userIfs`, `searchNot` and `searchExact`.
pub record Filter : Type 0 where
  pub user_ifs : List NetIf
  pub search_not : Bool
  pub search_exact : Bool

-- `env && env[0] == c`, and the string behind that character.
unfoldable pub strip : ℕ → Option (List ℕ) → Bool × Option (List ℕ)
strip c (some (x ∷ xs)) = if x == c then (true, some xs) else (false, some (x ∷ xs))
strip c env = (false, env)

-- NCCL_IB_HCA: '^' in front excludes, '=' wants the exact names.
unfoldable pub user_filter : Config → Filter
user_filter config =
    let (search_not, rest) = strip 94 config.user_ib_env in
    let (search_exact, list) = strip 61 rest in
    record {
      user_ifs = parse_string_list config.atoi max_ib_devs list;
      search_not = search_not;
      search_exact = search_exact;
    }

-- `matchIfList(...) ^ searchNot`.
unfoldable pub is_wanted : Filter → List ℕ → ℕ → Bool
is_wanted filter name port =
    let matches = match_if_list name (pos port) filter.user_ifs filter.search_exact in
    if filter.search_not then not matches else matches

-- The speed of a port, in Mb/s.
abbrev pub port_speed : PortAttr → ℕ
port_speed a = ib_speed a.active_speed * ib_width a.active_width

-- A port that is up, of a known link layer, and fast enough.
unfoldable pub is_usable : PortAttr → Bool
is_usable a =
    a.is_active
    && ((a.phys_state == 5)
        && ((same_link a.link_layer infiniband || same_link a.link_layer ethernet)
            && leb 100000 (port_speed a)))

-- ncclIbRelaxedOrderingCapable.
unfoldable pub relaxed_ordering_capable : Config → Bool
relaxed_ordering_capable config =
    ((config.relaxed_ordering == 1) || (config.relaxed_ordering == 2))
    && config.has_relaxed_ordering

-- The index of a merged device that the port's device goes to, and the device put there.
unfoldable pub add_dev : Bool → Dev → Devs → Devs
add_dev merges dev s =
    let fresh = length s.merged in
    let target = if merges then find_matching_dev dev s.devs s.merged else fresh in
    record s { devs = s.devs ++ (dev ∷ []); merged = put_dev target dev (length s.devs) s.merged }

module _ (config : Config) (filter : Filter) (host : Host) (merges : Bool) where
  -- The fields of ncclIbDevs[ncclNIbDevs]. A device without a path keeps the real port that the
  -- entry had, 0 in a table that is used for the first time.
  unfoldable pub new_dev : ℕ → DeviceAttr → ℕ → PortAttr → List Dev → Dev
  new_dev d attr port a devs =
      let (path, real_port) = get_pci_path config.merge_vfs (host.real_path (host.name d)) 0 devs in
      let by_link = if same_link a.link_layer infiniband then pos 1 else pos 0 in
      record {
        device = d;
        guid = attr.sys_image_guid;
        port_num = port;
        link = a.link_layer;
        speed = port_speed a;
        pd_refs = 0;
        dev_name = host.name d;
        pci_path = path;
        real_port = real_port;
        max_qp = attr.max_qp;
        ar =
            if same_int config.adaptive_routing (negsuc 1)
            then by_link
            else config.adaptive_routing;
        port_attr = a;
        fatal_errors = 0;
      }

  -- A port that passed the filters: its device, the thread for its events, its merged device. The
  -- result is nPorts.
  unfoldable pub register_port : ℕ → DeviceAttr → ℕ → PortAttr → ℕ → Action Devs ℕ
  register_port d attr port a n_ports s =
      let n = length s.devs in
      if not (host.create_thread n && host.detach_thread n)
      then (err system_error, s)
      else (ok (suc n_ports), add_dev merges (new_dev d attr port a s.devs) s)

  -- The filters on ncclIbInit's query of a port.
  unfoldable pub visit_port : ℕ → DeviceAttr → ℕ → Option PortAttr → ℕ → Action Devs ℕ
  visit_port d attr port none n_ports = pure n_ports
  visit_port d attr port (some a) n_ports =
      if is_usable a then register_port d attr port a n_ports else pure n_ports

  -- The loop over the ports from `port` on.
  unfoldable pub ports_from : ℕ → DeviceAttr → ℕ → ℕ → ℕ → Action Devs ℕ
  ports_from d attr zero port n_ports = pure n_ports
  ports_from d attr (suc left) port n_ports =
      (if is_wanted filter (host.name d) port
        then visit_port d attr port (host.query_port d port) n_ports
        else pure n_ports)
      >>= λ n. ports_from d attr left (suc port) n

  unfoldable pub with_device : ℕ → Option DeviceAttr → Action Devs (Unit {0})
  with_device d none = fail_if (not (host.closes d)) internal_error
  with_device d (some attr) = ports_from d attr attr.phys_port_cnt 1 0 >>= λ n_ports.
      fail_if ((n_ports == 0) && not (host.closes d)) internal_error

  unfoldable pub visit_device : ℕ → Action Devs (Unit {0})
  visit_device d = if host.opens d then with_device d (host.query_device d) else pure tt

  -- The loop over the devices from `d` on, which stops when the table is full.
  unfoldable pub devices_from : ℕ → ℕ → Action Devs (Unit {0})
  devices_from zero d s = (ok tt, s)
  devices_from (suc left) d s =
      let run = (visit_device d >> devices_from left (suc d)) s in
      if leb max_ib_devs (length s.devs) then (ok tt, s) else run

-- Some merged device differs in size from the first one.
unfoldable pub is_mixed : ℕ → List Merged → Bool
is_mixed n [] = false
is_mixed n (m ∷ merged) = not (length m.devs == n) || is_mixed n merged

abbrev pub first_size : List Merged → ℕ
first_size [] = 0
first_size (m ∷ merged) = length m.devs

-- The tables emptied.
abbrev pub reset : Devs → Devs
reset s = record s { is_known = true; devs = []; merged = [] }

-- The check for a mix behind the first pass: the list is built again without merging. `again` holds
-- the answers of the second pass.
unfoldable pub check_mix :
    Config → Filter → Host → ℕ → Result (Unit {0}) × Devs → Result (Unit {0}) × Devs
check_mix config filter again count (err e, built) = (err e, built)
check_mix config filter again count (ok done, built) =
    let rebuilt = devices_from config filter again false count 0 (reset built) in
    if config.merge_nics && is_mixed (first_size built.merged) built.merged
    then rebuilt
    else (ok tt, built)

-- `build_ib_list` for the `count` devices of the list.
unfoldable pub build_ib_list : Config → Host → Host → ℕ → Action Devs (Unit {0})
build_ib_list config host again count s =
    let filter = user_filter config in
    check_mix config filter again count
      (devices_from config filter host config.merge_nics count 0 s)

-- The environment's rank, unless a rank is set.
unfoldable pub set_rank : Option ℤ → Devs → Devs
set_rank none s = s
set_rank (some rank) s = if ltb_ℤ s.rank (pos 0) then record s { rank = rank } else s

-- What follows the list: relaxed ordering, when there is a device, and the rank.
unfoldable pub finish : Config → Devs → Devs
finish config s = set_rank config.rank_env (
    if length s.devs == 0
    then s
    else record s { relaxed_ordering_enabled = relaxed_ordering_capable config })

-- ncclIbInit by ibv_get_device_list's answer: the count of devices.
unfoldable pub with_list : Config → Option ℕ → Bool → Host → Host → Action Devs (Unit {0})
with_list config none freed host again = fail internal_error
with_list config (some count) freed host again =
    build_ib_list config host again count
    >> (fail_if (not (count == 0) && not freed) internal_error >> modify (finish config))

-- ncclIbInit. `has_interface` is ncclFindInterfaces' answer being 1, and `freed` the success of
-- ibv_free_device_list.
unfoldable pub init : Config → Bool → Option ℕ → Bool → Host → Host → Action Devs (Unit {0})
init config has_interface list freed host again s =
    let listed = with_list config list freed host again (reset s) in
    if config.disabled
    then (err internal_error, s)
    else if s.is_known
    then (ok tt, s)
    else if not has_interface
    then (err internal_error, reset s)
    else listed

-- ncclIbDevices.
abbrev pub devices : Devs → ℕ
devices s = length s.merged
