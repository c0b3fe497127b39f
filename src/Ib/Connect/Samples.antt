-- ===== src/Ib/Connect/Samples.antt =====
-- Concrete inputs for the set-up of a comm.
use nccl_exts.Prelude.{ℕ, suc, true, false, List, [], ◌∷◌, none, some, replicate}
use nccl_exts.Prelude.Int.{pos}
use nccl_exts.Ib.Request.{blank}
use nccl_exts.Ib.Device.{Dev, Merged, blank_dev}
use nccl_exts.Ib.Gid.{Port, inet}
use nccl_exts.Ib.Meta.{DevInfo, blank_dev_info, Metadata, ConnParams}
use nccl_exts.Ib.Connect.{ConnHost, Conn, blank_pd}

abbrev pub params : ConnParams
params = record {
  qps_per_connection = 2;
  ece_enable = false;
  is_global = false;
  gid_index = pos 3;
  fifo_tc = 0;
  tc = 106;
  sl = 0;
  timeout = 22;
  retry_cnt = 7;
  flush_disable = false;
  use_inline = false;
  wish = record { family = inet; prefix = []; prefixlen = 0; roce_ver = 2 };
}

abbrev pub port : Port
port = record {
  query_gid = λ _. some (record { word0 = 0; word1 = 0; word2 = 0xffff; word3 = 0x0a00_0007 });
  type_text = λ _. none;
  old_version = λ _. 0;
}

abbrev pub host : ConnHost
host = record {
  alloc_pd = λ n. some n;
  create_cq = λ n. some n;
  create_qp = λ q. some (suc q);
  modify_init = λ _. true;
  query_ece = λ _. some (5, true);
  set_ece = λ _. some true;
  modify_rtr = λ _. true;
  modify_rts = λ _. true;
  reg_fifo = λ i. some i;
  reg_sizes = λ i. some i;
  gid_port = λ _. port;
}

abbrev pub two_devs : List Dev
two_devs = blank_dev ∷ blank_dev ∷ []

abbrev pub merged : Merged
merged = record { devs = 0 ∷ 1 ∷ []; speed = 0; dev_name = [] }

abbrev pub fresh : Conn
fresh = record {
  pds = blank_pd ∷ blank_pd ∷ [];
  base = record {
    ndevs = 0;
    reqs = replicate 256 blank;
    qps = [];
    nqps = 0;
    qp_index = 0;
    dev_index = 0;
    ready = 0;
    fatal_errors = 0;
    posted = [];
    recvs = [];
  };
  dev_bases = [];
  gids = [];
  fifo_keys = [];
  sizes_keys = [];
  states = [];
  rem_devs = [];
  rem_addr = 0;
  ar = false;
  peer_rank = pos 0;
  fifo_inline = false;
  flush_enabled = false;
  flush_keys = [];
  flush_states = [];
  stat = none;
}

-- The metadata of an other side of two devices.
abbrev pub far_dev : ℕ → DevInfo
far_dev lid = record blank_dev_info { lid = lid; ib_port = 1; mtu = 5 }

abbrev pub far_side : Metadata
far_side = record {
  qp_info =
      record { qpn = 70; ece = 0; ece_supported = true; dev_index = 0 }
      ∷ record { qpn = 71; ece = 0; ece_supported = false; dev_index = 1 }
      ∷ [];
  devs = far_dev 3 ∷ far_dev 4 ∷ [];
  dev_name = [];
  fifo_addr = 8192;
  ndevs = 2;
  rank = pos 1;
}
