-- ===== src/Ib/Connect.antt =====
-- The set-up of a send comm in ncclIbConnect of src/unet/unet_ib.cc, and what it shares with
-- ncclIbAccept: the loops over devices and queue pairs. The stages of the two are in Ib.Stage.
pub mod Frame
pub mod Striping
pub mod Towards
pub mod Joining
pub mod Samples
mod Tests
use nccl_exts.Prelude.{
  ℕ, zero, suc, ◌+◌, ◌*◌, ◌%◌, ◌^◌, Bool, true, false, not, ◌&&◌, ◌||◌, List, [], ◌∷◌, ◌++◌, map,
  Option, none, some, ◌==◌, if◌then◌else◌, length, get_or, set, take,
}
use nccl_exts.Prelude.Int.{ℤ, pos}
use nccl_exts.Prelude.Nccl.{
  NcclResult, Result, ok, err, internal_error, system_error, Action, ◌>>=◌, ◌>>◌, pure, fail,
  fail_if, gets, modify, answered, from_result,
}
use nccl_exts.Interfaces.{same_int}
use nccl_exts.Ib.Comm.{Base, Qp, blank_qp, IbStat, ib_qp_count, stat_add}
use nccl_exts.Ib.Device.{Dev, Merged, LinkLayer, dev_at, infiniband, ethernet, same_link}
use nccl_exts.Ib.Pd.{DevPd, DevBase, init_comm_dev_base}
use nccl_exts.Ib.Gid.{Gid, Port, get_gid_index}
use nccl_exts.Ib.Meta.{
  QpInfo, blank_qp_info, DevInfo, blank_dev_info, Metadata, ConnParams, QpState, init, rtr, to_rts,
  rtr_attr,
}

-- What the verbs library answers during a set-up, by the number of an IB device, the position of a
-- device in the comm, or the number of a queue pair in the comm. `none` and `false` are failures.
pub record ConnHost : Type 0 where
  pub alloc_pd : ℕ → Option ℕ
  pub create_cq : ℕ → Option ℕ
  pub create_qp : ℕ → Option ℕ
  pub modify_init : ℕ → Bool
  pub query_ece : ℕ → Option (ℕ × Bool)
  pub set_ece : ℕ → Option Bool
  pub modify_rtr : ℕ → Bool
  pub modify_rts : ℕ → Bool
  pub reg_fifo : ℕ → Option ℕ
  pub reg_sizes : ℕ → Option ℕ
  pub gid_port : ℕ → Port

-- The chosen index of a device's GID, and the GID.
pub record GidInfo : Type 0 where
  pub index : ℕ
  pub gid : Gid

-- A comm that is being set up, with the table of domains: `dev_bases`, `gids`, `fifo_keys` and
-- `sizes_keys` hold what the loops over the comm's devices have filled in so far, and `states` the
-- states of the queue pairs of base.qps. A device without a GID has none. A send comm leaves the
-- flush fields and `fifo_inline` as they are, and a receive comm `ar`.
pub record Conn : Type 0 where
  pub pds : List DevPd
  pub base : Base
  pub dev_bases : List DevBase
  pub gids : List (Option GidInfo)
  pub fifo_keys : List ℕ
  pub sizes_keys : List ℕ
  pub states : List QpState
  pub rem_devs : List DevInfo
  pub rem_addr : ℕ
  pub ar : Bool
  pub peer_rank : ℤ
  pub fifo_inline : Bool
  pub flush_enabled : Bool
  pub flush_keys : List ℕ
  pub flush_states : List QpState
  pub stat : IbStat

abbrev pub blank_pd : DevPd
blank_pd = record { pd_refs = 0; pd = none; domains = 0; stat = none }

abbrev pub blank_dev_base : DevBase
blank_dev_base = record { ib_dev_n = 0; pd = none; cq = 0 }

-- comm->devs[i].base.
abbrev pub dev_base_at : Conn → ℕ → DevBase
dev_base_at s i = get_or s.dev_bases i blank_dev_base

-- fifoMr, the mr of remSizesFifo and the GID of the next device.
unfoldable pub push_fifo : ℕ → Conn → Conn
push_fifo key s = record s { fifo_keys = s.fifo_keys ++ (key ∷ []) }

unfoldable pub push_sizes : ℕ → Conn → Conn
push_sizes key s = record s { sizes_keys = s.sizes_keys ++ (key ∷ []) }

unfoldable pub push_gid : Option GidInfo → Conn → Conn
push_gid gid s = record s { gids = s.gids ++ (gid ∷ []) }

-- `comm->ar = comm->ar && ncclIbDevs[dev].ar`, by that field.
unfoldable pub and_ar : ℤ → Conn → Conn
and_ar ar s = record s { ar = s.ar && not (same_int ar (pos 0)) }

-- comm->base.qps[q].remDevIdx = index.
unfoldable pub set_rem_dev : ℕ → ℕ → Conn → Conn
set_rem_dev q index s = record s {
  base = record s.base {
    qps = set s.base.qps q (record (get_or s.base.qps q blank_qp) { rem_dev_idx = index });
  };
}

-- What is copied of the other side's metadata. The source's arrays of devices, there and here, have two
-- entries, and `ndevs` is not checked; the lists here have as many as there are.
unfoldable pub set_remote : Metadata → Conn → Conn
set_remote meta s = record s { rem_devs = take meta.ndevs meta.devs; rem_addr = meta.fifo_addr }

module _ (p : ConnParams) (devs : List Dev) (host : ConnHost) where
  -- What ncclIbInitCommDevBase on IB device n leaves.
  unfoldable pub take_base : ℕ → Result DevBase × DevPd → Action Conn (Unit {0})
  take_base n (err e, d) s = (err e, record s { pds = set s.pds n d; stat = d.stat })
  take_base n (ok base, d) s = (
    ok tt,
    record s { pds = set s.pds n d; stat = d.stat; dev_bases = s.dev_bases ++ (base ∷ []) },
  )

  unfoldable pub init_dev : ℕ → Action Conn (Unit {0})
  init_dev n s =
      take_base n
        (init_comm_dev_base n (host.alloc_pd n) (host.create_cq n)
          (record (get_or s.pds n blank_pd) { stat = s.stat }))
        s

  -- The loop over a merged device's devices. `dev` is the index of the merged device, with which the
  -- source looks up `ar`.
  unfoldable pub init_devs : ℕ → List ℕ → Action Conn (Unit {0})
  init_devs dev [] = pure tt
  init_devs dev (n ∷ ns) = init_dev n >> modify (and_ar (dev_at devs dev).ar) >> init_devs dev ns

  -- What wrap_ibv_create_qp leaves for a queue pair of the comm on device `dev_index`: its number, and
  -- the state INIT that is asked for next.
  unfoldable pub add_qp : ℕ → ℕ → Conn → Conn
  add_qp qpn dev_index s =
      let port = (dev_at devs (dev_base_at s dev_index).ib_dev_n).port_num in
      let qp : Qp = record { qp = qpn; dev_index = dev_index; rem_dev_idx = 0 } in
      record s {
        base = record s.base { qps = s.base.qps ++ (qp ∷ []) };
        states = s.states ++ (init port ∷ []);
        stat = stat_add ib_qp_count 1 s.stat;
      }

  -- ncclIbCreateQp for queue pair q.
  unfoldable pub create_qp : ℕ → ℕ → Action Conn ℕ
  create_qp q dev_index = answered (host.create_qp q) >>= λ qpn.
      modify (add_qp qpn dev_index) >> (fail_if (not (host.modify_init q)) system_error >> pure qpn)

  -- The enhanced connection establishment of queue pair q.
  unfoldable pub ask_ece : ℕ → Action Conn (ℕ × Bool)
  ask_ece q = if p.ece_enable then answered (host.query_ece q) else pure (0, false)

  -- What the other side is told of a queue pair.
  abbrev pub qp_info : ℕ → ℕ → ℕ × Bool → QpInfo
  qp_info qpn dev_index (ece, supported) = record {
    qpn = qpn;
    ece = ece;
    ece_supported = supported;
    dev_index = dev_index;
  }

  unfoldable pub create_qp_info : ℕ → ℕ → Action Conn QpInfo
  create_qp_info q dev_index =
      create_qp q dev_index >>= λ qpn. ask_ece q >>= λ ece. pure (qp_info qpn dev_index ece)

  -- The loop that makes `left` queue pairs from number q on, by turns on the comm's devices. The source
  -- writes them to arrays of 128 without a check; here they are lists that grow.
  unfoldable pub create_qps : ℕ → ℕ → ℕ → Action Conn (List QpInfo)
  create_qps zero q dev_index = pure []
  create_qps (suc left) q dev_index = create_qp_info q dev_index >>= λ info.
      gets (λ (s : Conn). (dev_index + 1) % s.base.ndevs) >>= λ next.
      create_qps left (suc q) next >>= λ infos. pure (info ∷ infos)

  -- ncclIbGetGidIndex and wrap_ibv_query_gid for IB device n.
  unfoldable pub local_gid : ℕ → Action Conn GidInfo
  local_gid n =
      from_result
        (get_gid_index (host.gid_port n) p.wish p.gid_index (dev_at devs n).port_attr.gid_tbl_len)
      >>= λ index. answered ((host.gid_port n).query_gid index) >>= λ gid.
          pure (record { index = index; gid = gid })

  -- `link_layer == IBV_LINK_LAYER_ETHERNET || is_global` of IB device n.
  abbrev pub needs_gid : ℕ → Bool
  needs_gid n =
      let a = (dev_at devs n).port_attr in
      same_link a.link_layer ethernet || (p.is_global || a.grh_required)

  -- What the other side is told of IB device n: spn and iid are the halves of the
  -- GID, and 0 where the source leaves them as they were.
  unfoldable pub dev_info : ℕ → ℕ → Option GidInfo → DevInfo
  dev_info n key gid =
      let d = dev_at devs n in
      record {
        lid = d.port_attr.lid;
        ib_port = d.port_num;
        mtu = d.port_attr.active_mtu;
        link_layer = d.port_attr.link_layer;
        is_global = p.is_global || d.port_attr.grh_required;
        spn = elim gid [ none ↦ 0 | some g ↦ g.gid.word0 * 2 ^ 32 + g.gid.word1 ];
        iid = elim gid [ none ↦ 0 | some g ↦ g.gid.word2 * 2 ^ 32 + g.gid.word3 ];
        fifo_rkey = key;
      }

  unfoldable pub find_gid : ℕ → Action Conn (Option GidInfo)
  find_gid n = if needs_gid n then (local_gid n >>= λ g. pure (some g)) else pure none

  unfoldable pub reg_fifo : ℕ → Action Conn ℕ
  reg_fifo i = answered (host.reg_fifo i) >>= λ key. modify (push_fifo key) >> pure key

  unfoldable pub publish_dev : ℕ → Action Conn DevInfo
  publish_dev i = reg_fifo i >>= λ key. gets (λ (s : Conn). (dev_base_at s i).ib_dev_n) >>= λ n.
      find_gid n >>= λ gid. modify (push_gid gid) >> pure (dev_info n key gid)

  -- The loop that registers the fifo and fills meta.devs for `left` devices from the i-th on.
  unfoldable pub publish_devs : ℕ → ℕ → Action Conn (List DevInfo)
  publish_devs zero i = pure []
  publish_devs (suc left) i =
      publish_dev i >>= λ info. publish_devs left (suc i) >>= λ infos. pure (info ∷ infos)

  -- base.ndevs and base.nqps, with a queue pair per device at least.
  unfoldable pub set_counts : Merged → Conn → Conn
  set_counts m s = record s {
    base = record s.base { ndevs = length m.devs; nqps = p.qps_per_connection * length m.devs };
    ar = true;
  }

  -- ncclIbConnect from the ready socket to the metadata for the other side: `rank` is rank_ and
  -- `fifo_addr` the address of comm->fifo.
  unfoldable pub connect_setup : ℕ → Merged → ℤ → ℕ → Action Conn Metadata
  connect_setup dev m rank fifo_addr =
      modify (set_counts m)
      >> init_devs dev m.devs
      >> create_qps (p.qps_per_connection * length m.devs) 0 0
      >>= λ qp_info. publish_devs (length m.devs) 0 >>= λ infos. pure (record {
        qp_info = qp_info;
        devs = infos;
        dev_name = m.dev_name;
        fifo_addr = fifo_addr;
        ndevs = length m.devs;
        rank = rank;
      })

  -- All of the other side's devices have the link layer of the first one.
  unfoldable pub same_layer : LinkLayer → List DevInfo → Bool
  same_layer l [] = true
  same_layer l (d ∷ infos) = same_link d.link_layer l && same_layer l infos

  abbrev pub first_layer : Metadata → LinkLayer
  first_layer meta = (get_or meta.devs 0 blank_dev_info).link_layer

  unfoldable pub reg_size : ℕ → Action Conn (Unit {0})
  reg_size i = answered (host.reg_sizes i) >>= λ key. modify (push_sizes key)

  -- The loop that registers the elements of remSizesFifo for `left` devices from the i-th on.
  unfoldable pub reg_sizes : ℕ → ℕ → Action Conn (Unit {0})
  reg_sizes zero i = pure tt
  reg_sizes (suc left) i = reg_size i >> reg_sizes left (suc i)

  -- `if (remQpInfo->ece_supported) wrap_ibv_set_ece(...)`.
  unfoldable pub give_ece : ℕ → QpInfo → Action Conn (Unit {0})
  give_ece q info =
      if info.ece_supported then (answered (host.set_ece q) >>= λ b. pure tt) else pure tt

  -- localGidIndex of the device of queue pair q; 0 from calloc for a device without a GID.
  abbrev pub sgid_index_at : Conn → ℕ → ℕ
  sgid_index_at s q = elim (get_or s.gids (get_or s.base.qps q blank_qp).dev_index none) [
    | none ↦ 0
    | some g ↦ g.index
  ]

  -- What ncclIbRtrQp leaves in queue pair q.
  unfoldable pub receive_state : Bool → ℕ → QpInfo → DevInfo → Conn → Conn
  receive_state override_tc q info rem_dev s = record s {
    states = set s.states q (rtr (rtr_attr p (sgid_index_at s q) info.qpn rem_dev override_tc));
  }

  -- What ncclIbRtsQp leaves in it.
  unfoldable pub send_state : ℕ → Conn → Conn
  send_state q s = record s { states = set s.states q (to_rts p (get_or s.states q (init 0))) }

  -- ncclIbRtrQp and ncclIbRtsQp on queue pair q.
  unfoldable pub ready_qp : Bool → ℕ → QpInfo → DevInfo → Action Conn (Unit {0})
  ready_qp override_tc q info rem_dev =
      fail_if (not (host.modify_rtr q)) system_error
      >> modify (receive_state override_tc q info rem_dev)
      >> fail_if (not (host.modify_rts q)) system_error
      >> modify (send_state q)

  -- The other side's queue pair q, and its device.
  abbrev pub peer_qp : Metadata → ℕ → QpInfo
  peer_qp meta q = get_or meta.qp_info q blank_qp_info

  abbrev pub peer_dev : Metadata → ℕ → DevInfo
  peer_dev meta q = get_or meta.devs (peer_qp meta q).dev_index blank_dev_info

  -- Queue pair q is connected to the other side's.
  unfoldable pub join_qp : Metadata → ℕ → Action Conn (Unit {0})
  join_qp meta q =
      modify (set_rem_dev q (peer_qp meta q).dev_index)
      >> give_ece q (peer_qp meta q)
      >> ready_qp false q (peer_qp meta q) (peer_dev meta q)

  -- The loop that connects `left` queue pairs from number q on.
  unfoldable pub join_qps : Metadata → ℕ → ℕ → Action Conn (Unit {0})
  join_qps meta zero q = pure tt
  join_qps meta (suc left) q = join_qp meta q >> join_qps meta left (suc q)

  -- What the source does before it connects the queue pairs: the other side's data, and the sizes.
  unfoldable pub take_remote : Metadata → Action Conn (Unit {0})
  take_remote meta =
      fail_if (not (same_layer (first_layer meta) (take meta.ndevs meta.devs))) internal_error
      >> modify (set_remote meta)
      >> gets (λ (s : Conn). s.base.ndevs)
      >>= λ n. reg_sizes n 0

  -- ncclIbConnect from the other side's metadata to the ready comm.
  unfoldable pub connect_finish : Metadata → Action Conn (Unit {0})
  connect_finish meta =
      modify (λ (s : Conn). record s { peer_rank = meta.rank }) >> take_remote meta >>= λ done.
      gets (λ (s : Conn). s.base.nqps) >>= λ nqps.
      join_qps meta nqps 0 >> modify (λ (s : Conn). record s { base = record s.base { ready = 1 } })
