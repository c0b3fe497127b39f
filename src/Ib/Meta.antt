-- ===== src/Ib/Meta.antt =====
-- What the two sides of a connection tell each other, and the states of a queue pair:
-- ncclIbConnectionMetadata, ncclIbRtrQp and ncclIbRtsQp of src/unet/unet_ib.cc.
use nccl_exts.Prelude.{
  ℕ, Bool, false, ◌&&◌, ◌||◌, not, List, Option, none, some, ◌==◌, if◌then◌else◌,
}
use nccl_exts.Prelude.Int.{ℤ}
use nccl_exts.Ib.Device.{LinkLayer, unspecified, ethernet, same_link}
use nccl_exts.Ib.Gid.{Wish}

-- struct ncclIbQpInfo; `ece` stands for the three words of struct ibv_ece.
pub record QpInfo : Type 0 where
  pub qpn : ℕ
  pub ece : ℕ
  pub ece_supported : Bool
  pub dev_index : ℕ

abbrev pub blank_qp_info : QpInfo
blank_qp_info = record { qpn = 0; ece = 0; ece_supported = false; dev_index = 0 }

-- struct ncclIbDevInfo. Its remoteGid is made of `spn` and `iid`.
pub record DevInfo : Type 0 where
  pub lid : ℕ
  pub ib_port : ℕ
  pub mtu : ℕ
  pub link_layer : LinkLayer
  pub is_global : Bool
  pub spn : ℕ
  pub iid : ℕ
  pub fifo_rkey : ℕ

abbrev pub blank_dev_info : DevInfo
blank_dev_info = record {
  lid = 0;
  ib_port = 0;
  mtu = 0;
  link_layer = unspecified;
  is_global = false;
  spn = 0;
  iid = 0;
  fifo_rkey = 0;
}

-- struct ncclIbConnectionMetadata.
pub record Metadata : Type 0 where
  pub qp_info : List QpInfo
  pub devs : List DevInfo
  pub dev_name : List ℕ
  pub fifo_addr : ℕ
  pub ndevs : ℕ
  pub rank : ℤ

-- The parameters of a connection: IB_QPS_PER_CONNECTION, IB_ECE_ENABLE, IB_IS_GLOBAL, IB_GID_INDEX,
-- IB_FIFO_TC, IB_TC, IB_SL, IB_TIMEOUT, IB_RETRY_CNT, GDR_FLUSH_DISABLE, IB_USE_INLINE, and the
-- wish for a GID.
pub record ConnParams : Type 0 where
  pub qps_per_connection : ℕ
  pub ece_enable : Bool
  pub is_global : Bool
  pub gid_index : ℤ
  pub fifo_tc : ℕ
  pub tc : ℕ
  pub sl : ℕ
  pub timeout : ℕ
  pub retry_cnt : ℕ
  pub flush_disable : Bool
  pub use_inline : Bool
  pub wish : Wish

-- struct ibv_global_route, as far as ncclIbRtrQp sets it from its arguments.
pub record GlobalRoute : Type 0 where
  pub subnet_prefix : ℕ
  pub interface_id : ℕ
  pub sgid_index : ℕ
  pub traffic_class : ℕ

-- struct ibv_qp_attr of the change to RTR: the values that depend on the arguments. `grh` is `none`
-- for is_global = 0.
pub record RtrAttr : Type 0 where
  pub path_mtu : ℕ
  pub dest_qp_num : ℕ
  pub dlid : ℕ
  pub grh : Option GlobalRoute
  pub sl : ℕ
  pub port_num : ℕ

-- The attributes that ncclIbRtrQp asks for.
unfoldable pub rtr_attr : ConnParams → ℕ → ℕ → DevInfo → Bool → RtrAttr
rtr_attr p sgid_index dest_qp_num info override_tc = record {
  path_mtu = info.mtu;
  dest_qp_num = dest_qp_num;
  dlid = info.lid;
  grh =
      if same_link info.link_layer ethernet || info.is_global
      then some (record {
        subnet_prefix = info.spn;
        interface_id = info.iid;
        sgid_index = sgid_index;
        traffic_class = if not (p.fifo_tc == 0) && override_tc then p.fifo_tc else p.tc;
      })
      else none;
  sl = p.sl;
  port_num = info.ib_port;
}

-- The attributes of the change to RTS that depend on parameters.
pub record RtsAttr : Type 0 where
  pub timeout : ℕ
  pub retry_cnt : ℕ

abbrev pub rts_attr : ConnParams → RtsAttr
rts_attr p = record { timeout = p.timeout; retry_cnt = p.retry_cnt }

-- The state of a queue pair: IBV_QPS_INIT on a port, IBV_QPS_RTR, IBV_QPS_RTS.
pub data QpState : Type 0 where
  init : ℕ → QpState
  rtr : RtrAttr → QpState
  rts : RtrAttr → RtsAttr → QpState

-- A change to RTS keeps the attributes of RTR; it needs a queue pair in RTR.
abbrev pub to_rts : ConnParams → QpState → QpState
to_rts p (rtr a) = rts a (rts_attr p)
to_rts p s = s
