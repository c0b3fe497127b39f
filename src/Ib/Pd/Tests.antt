-- ===== src/Ib/Pd/Tests.antt =====
-- Runs of the counting of protection domains at concrete inputs.
use nccl_exts.Prelude.{ℕ, ◌≡◌, ◌⊎◌, refl, arith, true, none, some}
use nccl_exts.Prelude.Nccl.{Ends}
use nccl_exts.Ib.Pd.{DevPd, DevBase, init_comm_dev_base, destroy_base}
use nccl_exts.Ib.Pd.Counts.{IsCounted, init_comm_dev_base-Ends, destroy_base-Ends}

abbrev unused : DevPd
unused = record { pd_refs = 0; pd = none; domains = 0; stat = none }

abbrev used : DevPd
used = record { pd_refs = 1; pd = some 7; domains = 1; stat = none }

init_comm_dev_base-Ends_example :
    Ends
      (λ (base : DevBase) t. IsCounted 1 t × ((pd : ℕ) × ((base.pd ≡ some pd) × (t.pd ≡ some pd))))
      (λ _ t. t.pd_refs ≡ 1)
      (init_comm_dev_base 0 (some 7) (some 9) unused)
init_comm_dev_base-Ends_example =
    init_comm_dev_base-Ends 0 0 (some 7) (some 9) unused (omega arith)
      (record { refs = refl; has_pd = λ h. absurd (omega arith); one_domain = refl })

destroy_base-Ends_example :
    Ends (λ _ t. IsCounted 0 t) (λ _ t. (t ≡ used) ⊎ (t.pd_refs ≡ 0)) (destroy_base true true used)
destroy_base-Ends_example =
    destroy_base-Ends 0 true true used (omega arith)
      (record { refs = refl; has_pd = λ h. (7, refl); one_domain = refl })
