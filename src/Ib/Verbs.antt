-- ===== src/Ib/Verbs.antt =====
-- The parts of libibverbs' data that unet_ib.cc fills in and reads: scatter entries, send work
-- requests, memory regions and completions, with the fields that the code uses.
use nccl_exts.Prelude.{ℕ, Bool, List, Option}

-- enum ibv_wr_opcode, as far as it is used.
pub data WrOpcode : Type 0 where
  rdma_write rdma_write_with_imm rdma_read : WrOpcode

-- struct ibv_sge.
pub record Sge : Type 0 where
  pub addr : ℕ
  pub length : ℕ
  pub lkey : ℕ

-- struct ibv_send_wr; `signaled` and `inlined` are the send_flags, `sge` is `none` for num_sge = 0, and the chain of `next` pointers is a list.
pub record Wr : Type 0 where
  pub wr_id : ℕ
  pub opcode : WrOpcode
  pub remote_addr : ℕ
  pub rkey : ℕ
  pub sge : Option Sge
  pub imm_data : ℕ
  pub signaled : Bool
  pub inlined : Bool

-- One call of ibv_post_send: the queue pair and the chain.
pub record Post : Type 0 where
  pub qp : ℕ
  pub wrs : List Wr

-- struct ibv_mr.
pub record Mr : Type 0 where
  pub lkey : ℕ
  pub rkey : ℕ

-- enum ibv_wc_opcode, as far as it is told apart.
pub data WcOpcode : Type 0 where
  recv_rdma_with_imm other_opcode : WcOpcode

-- struct ibv_wc.
pub record Wc : Type 0 where
  pub wr_id : ℕ
  pub is_success : Bool
  pub opcode : WcOpcode
  pub imm_data : ℕ
