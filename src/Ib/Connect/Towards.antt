-- ===== src/Ib/Connect/Towards.antt =====
-- Where the attributes that ncclIbRtrQp of src/unet/unet_ib.cc sets lead to.
use nccl_exts.Prelude.{
  ℕ, ◌≡◌, ◌≢◌, ◌⊎◌, true, Option, some, none, inl, inr, refl, Bool, false, arith, Bool-cases,
}
use nccl_exts.Ib.Device.{LinkLayer, unspecified, infiniband, ethernet, same_link}
use nccl_exts.Ib.Meta.{QpInfo, DevInfo, GlobalRoute, ConnParams, RtrAttr, rtr_attr}

-- The address of the other side's device goes into the global route, when its port has Ethernet or asks
-- for one, and no route is set otherwise.
abbrev IsRouted : DevInfo → Option GlobalRoute → Type 0
IsRouted info grh =
    (((info.link_layer ≡ ethernet) ⊎ (info.is_global ≡ true))
      × ((g : GlobalRoute) × ((grh ≡ some g)
            × ((g.subnet_prefix ≡ info.spn) × (g.interface_id ≡ info.iid)))))
    ⊎ ((info.link_layer ≢ ethernet) × ((info.is_global ≡ false) × (grh ≡ none)))

-- The attributes lead to the queue pair and to the port of the device that it is on.
pub record IsTowards (p : ConnParams) (qp : QpInfo) (info : DevInfo) (a : RtrAttr) : Type 0 where
  pub dest : a.dest_qp_num ≡ qp.qpn
  pub mtu : a.path_mtu ≡ info.mtu
  pub lid : a.dlid ≡ info.lid
  pub port : a.port_num ≡ info.ib_port
  pub level : a.sl ≡ p.sl
  pub route : IsRouted info a.grh

ethernet_or_not : (l : LinkLayer) → same_link l ethernet ≡ false → l ≢ ethernet
ethernet_or_not ethernet h = λ e. absurd (ground (arith, h))
ethernet_or_not infiniband h = λ e. absurd (cc)
ethernet_or_not unspecified h = λ e. absurd (cc)

ethernet_is : (l : LinkLayer) → same_link l ethernet ≡ true → l ≡ ethernet
ethernet_is ethernet h = refl
ethernet_is infiniband h = absurd (ground (arith, h))
ethernet_is unspecified h = absurd (ground (arith, h))

rtr_attr-IsRouted :
    (p : ConnParams) (gid qpn : ℕ) (info : DevInfo) (override_tc : Bool)
    → IsRouted info (rtr_attr p gid qpn info override_tc).grh
unfolding rtr_attr
rtr_attr-IsRouted p gid qpn info override_tc =
    elim (Bool-cases (same_link info.link_layer ethernet)) [
      | inl t ↦ rw t (inl (inl (ethernet_is info.link_layer t), (_, (refl, (refl, refl)))))
      | inr f ↦ elim (Bool-cases info.is_global) [
        | inl t ↦ simp (f, t) (inl (inr refl, (_, (refl, (refl, refl)))))
        | inr g ↦ simp (f, g) (inr (ethernet_or_not info.link_layer f, (refl, refl)))
      ]
    ]

pub rtr_attr-IsTowards :
    (p : ConnParams) (gid : ℕ) (qp : QpInfo) (info : DevInfo) (override_tc : Bool)
    → IsTowards p qp info (rtr_attr p gid qp.qpn info override_tc)
unfolding rtr_attr
rtr_attr-IsTowards p gid qp info override_tc = record {
  dest = refl;
  mtu = refl;
  lid = refl;
  port = refl;
  level = refl;
  route = rtr_attr-IsRouted p gid qp.qpn info override_tc;
}
