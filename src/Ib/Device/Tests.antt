-- ===== src/Ib/Device/Tests.antt =====
-- Runs of the discovery of devices at concrete inputs.
use nccl_exts.Prelude.{ℕ, zero, ◌≡◌, refl, arith, true, false, [], ◌∷◌, Option, none, some}
use nccl_exts.Prelude.Int.{pos, negsuc}
use nccl_exts.Prelude.Nccl.{Ends}
use nccl_exts.Ib.Device.{
  PortAttr, infiniband, count_path, find_matching_dev, put_dev, get_pci_path, merge_path,
}
use nccl_exts.Interfaces.{equal_up_to, match_if_list, parse_string_list}
use nccl_exts.Ib.Device.Speed.{ib_speed, ib_width, bit_from, first_bit_set}
use nccl_exts.Ib.Device.Discovery.{
  Config, Host, DeviceAttr, Devs, init, devices, with_list, build_ib_list, check_mix, devices_from,
  visit_device, with_device, ports_from, visit_port, register_port, add_dev, new_dev, is_wanted,
  user_filter, strip, is_usable, is_mixed, finish, set_rank, relaxed_ordering_capable,
}
use nccl_exts.Ib.Device.Merging.{IsTable}
use nccl_exts.Ib.Device.Passes.{IsSettled, init-IsSettled}
use nccl_exts.Ib.Device.Support.{
  Support, Probe, uninit, Answers, dma_buf_support, dma_buf_support-Answers,
}

-- Two cards, the first one with two ports, all of them NDR with four lanes.
abbrev attr : PortAttr
attr = record {
  is_active = true;
  phys_state = 5;
  link_layer = infiniband;
  active_speed = 128;
  active_width = 2;
  active_mtu = 5;
  lid = 3;
  gid_tbl_len = 8;
  grh_required = false;
}

abbrev card : ℕ → Option DeviceAttr
card zero = some (record { sys_image_guid = 11; phys_port_cnt = 2; max_qp = 64 })
card _ = some (record { sys_image_guid = 12; phys_port_cnt = 1; max_qp = 64 })

abbrev host : Host
host = record {
  opens = λ _. true;
  closes = λ _. true;
  query_device = card;
  query_port = λ d p. some attr;
  name = λ d. 109 ∷ d ∷ [];
  real_path = λ name. some (47 ∷ 47 ∷ 47 ∷ 47 ∷ name);
  create_thread = λ _. true;
  detach_thread = λ _. true;
}

abbrev config : Config
config = record {
  disabled = false;
  user_ib_env = none;
  merge_nics = true;
  merge_vfs = true;
  adaptive_routing = negsuc 1;
  relaxed_ordering = 2;
  rank_env = none;
  has_relaxed_ordering = true;
  atoi = λ _. pos 0;
}

abbrev start : Devs
start = record {
  is_known = false;
  devs = [];
  merged = [];
  relaxed_ordering_enabled = false;
  rank = negsuc 0;
}

-- The mix of one and two ports gives three devices that are not merged.
three_devices : devices (init config true (some 2) true host host start).1 ≡ 3
unfolding init with_list build_ib_list check_mix devices_from visit_device with_device ports_from
    visit_port register_port add_dev find_matching_dev put_dev new_dev get_pci_path merge_path
    count_path is_wanted user_filter strip is_usable is_mixed ib_speed ib_width first_bit_set
    bit_from equal_up_to match_if_list parse_string_list finish set_rank relaxed_ordering_capable
three_devices = refl

init-IsSettled_example :
    Ends (λ _. IsSettled) (λ _. IsTable) (init config true (some 2) true host host start)
init-IsSettled_example =
    init-IsSettled config true (some 2) true host host start refl
      (record { each_merged = tt; each_once = λ k. ground arith })

abbrev probe : Probe
probe = record { alloc_pd = λ _. true; unsupported = λ _. false; dealloc_pd = λ _. true }

abbrev support : Support
support = record { gdr = none; dma_buf = uninit ∷ uninit ∷ [] }

dma_buf_support-Answers_example :
    Answers probe (0 ∷ 1 ∷ []) 1 support (dma_buf_support probe (0 ∷ 1 ∷ []) 1 support)
dma_buf_support-Answers_example = dma_buf_support-Answers probe (0 ∷ 1 ∷ []) 1 support (omega arith)
