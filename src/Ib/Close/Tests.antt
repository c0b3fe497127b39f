-- ===== src/Ib/Close/Tests.antt =====
-- Runs of the end of a comm of src/unet/unet_ib.cc at concrete inputs.
use nccl_exts.Prelude.{ℕ, zero, suc, ◌+◌, ◌^◌, ◌<◌, refl, true, [], ◌∷◌, none, some, arith, get_or}
use nccl_exts.Prelude.Nccl.{success, Ends}
use nccl_exts.Ib.Connect.{Conn, blank_pd}
use nccl_exts.Ib.Pd.Counts.{IsCounted}
use nccl_exts.Ib.Connect.Samples.{fresh}
use nccl_exts.Ib.Close.{CloseHost, close_send, close_recv}
use nccl_exts.Ib.Close.Users.{AreUsed, AreKnown, uses, close-AreUsed}

abbrev host : CloseHost
host = record {
  socket = success;
  destroy_qp = λ _. true;
  destroy_flush = λ _. true;
  dereg_mr = λ _. true;
  destroy_cq = λ _. true;
  dealloc_pd = λ _. true;
}

-- A comm on two devices; the second one has another comm.
abbrev in_use : Conn
in_use = record fresh {
  pds =
      record { pd_refs = 1; pd = some 7; domains = 1; stat = none }
      ∷ record { pd_refs = 2; pd = some 8; domains = 1; stat = none }
      ∷ [];
  dev_bases =
      record { ib_dev_n = 0; pd = some 7; cq = 3 }
      ∷ record { ib_dev_n = 1; pd = some 8; cq = 4 }
      ∷ [];
  fifo_keys = 5 ∷ 6 ∷ [];
}

abbrev others : ℕ → ℕ
others zero = 0
others (suc zero) = 1
others (suc (suc n)) = 0

in_use-AreUsed : AreUsed others in_use.dev_bases in_use
in_use-AreUsed = record { counted = counted; in_range = in_range }
  where
    counted :
        (n : ℕ)
        → n < 2
        → IsCounted (others n + uses n in_use.dev_bases) (get_or in_use.pds n blank_pd)
    counted zero l = record { refs = refl; has_pd = λ _. (7, refl); one_domain = refl }
    counted (suc zero) l = record { refs = refl; has_pd = λ _. (8, refl); one_domain = refl }
    counted (suc (suc n)) l = absurd (omega arith)

    in_range : (n : ℕ) → others n + uses n in_use.dev_bases < 2 ^ 31
    in_range zero = omega arith
    in_range (suc zero) = omega arith
    in_range (suc (suc n)) = ground arith

in_use-AreKnown : AreKnown in_use.dev_bases in_use
in_use-AreKnown zero h = omega arith
in_use-AreKnown (suc zero) h = omega arith
in_use-AreKnown (suc (suc n)) h = absurd (ground (arith, h))

close-AreUsed_example :
    Ends (λ _ t. AreUsed others [] t) (λ _ _. Unit {0}) (close_send host in_use)
    × Ends (λ _ t. AreUsed others [] t) (λ _ _. Unit {0}) (close_recv host in_use)
close-AreUsed_example = close-AreUsed host others in_use in_use-AreUsed in_use-AreKnown
