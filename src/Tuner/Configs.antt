-- ===== src/Tuner/Configs.antt =====
-- The tables of src/utuner/plugin.c: which algorithm and protocol to use for a cluster of a given
-- size, by message size. NCCL_ALGO_* and NCCL_PROTO_* are their numbers of src/include/tuner.h.
use nccl_exts.Prelude.{ℕ, ◌^◌, List, [], ◌∷◌}
use nccl_exts.Prelude.Int.{ℤ, pos, negsuc}

pub record AlgoProto : Type 0 where
  pub algo : ℤ
  pub proto : ℤ
  pub nbytes : ℕ

-- `nchoices` is the length of `ap_choices`.
pub record TunerConfig : Type 0 where
  pub nranks : ℕ
  pub nnodes : ℕ
  pub ap_choices : List AlgoProto

-- NCCL_ALGO_UNDEF and NCCL_PROTO_UNDEF.
abbrev pub undef : ℤ
undef = negsuc 0

abbrev algo_tree : ℤ
algo_tree = pos 0

abbrev algo_ring : ℤ
algo_ring = pos 1

abbrev proto_ll : ℤ
proto_ll = pos 0

abbrev proto_ll128 : ℤ
proto_ll128 = pos 1

abbrev proto_simple : ℤ
proto_simple = pos 2

abbrev pub num_algorithms : ℕ
num_algorithms = 7

abbrev pub num_protocols : ℕ
num_protocols = 3

abbrev choice : ℤ → ℤ → ℕ → AlgoProto
choice algo proto shift = record { algo = algo; proto = proto; nbytes = 2 ^ shift }

abbrev config : ℕ → ℕ → List AlgoProto → TunerConfig
config nranks nnodes choices = record { nranks = nranks; nnodes = nnodes; ap_choices = choices }

-- `allreduce_tuner_cfgs`, without the blank rows behind the first kTunerCfgNum.
abbrev pub allreduce_tuner_cfgs : List TunerConfig
allreduce_tuner_cfgs =
    config 16 2 (choice algo_tree proto_ll128 20 ∷ choice algo_tree proto_ll128 23 ∷ [])
    ∷ config 32 4 (
        choice algo_tree proto_ll128 21
        ∷ choice undef undef 22
        ∷ choice undef undef 24
        ∷ choice algo_tree proto_ll128 25
        ∷ choice undef undef 26
        ∷ choice undef undef 27
        ∷ choice algo_ring proto_simple 28
        ∷ [])
    ∷ config 48 6 (
        choice algo_tree proto_ll128 21
        ∷ choice undef undef 22
        ∷ choice undef undef 24
        ∷ choice algo_tree proto_ll128 25
        ∷ choice algo_ring proto_ll128 26
        ∷ choice algo_ring proto_ll128 27
        ∷ choice algo_ring proto_simple 28
        ∷ [])
    ∷ config 64 8 (
        choice algo_tree proto_ll128 21
        ∷ choice undef undef 22
        ∷ choice undef undef 24
        ∷ choice algo_tree proto_ll128 25
        ∷ choice algo_tree proto_ll128 26
        ∷ choice algo_ring proto_ll128 27
        ∷ choice undef undef 28
        ∷ choice algo_ring proto_simple 29
        ∷ [])
    ∷ config 80 10 (
        choice algo_tree proto_ll128 25
        ∷ choice algo_tree proto_ll128 26
        ∷ choice algo_ring proto_ll128 27
        ∷ choice algo_ring proto_ll128 28
        ∷ [])
    ∷ config 96 12 (
        choice algo_tree proto_ll128 25
        ∷ choice algo_tree proto_ll128 26
        ∷ choice algo_ring proto_ll128 27
        ∷ choice algo_ring proto_ll128 28
        ∷ [])
    ∷ config 112 14 (
        choice algo_tree proto_ll128 25
        ∷ choice algo_tree proto_ll128 27
        ∷ choice algo_ring proto_ll128 28
        ∷ choice undef undef 29
        ∷ choice algo_ring proto_simple 30
        ∷ [])
    ∷ config 128 16 (
        choice algo_tree proto_ll128 26
        ∷ choice algo_tree proto_ll128 27
        ∷ choice algo_ring proto_ll128 28
        ∷ choice algo_ring proto_ll128 29
        ∷ choice algo_ring proto_simple 30
        ∷ [])
    ∷ []

-- `reducescatter_tuner_cfgs`, without the blank rows behind the first kTunerCfgNum.
abbrev pub reducescatter_tuner_cfgs : List TunerConfig
reducescatter_tuner_cfgs =
    config 16 2 (choice algo_ring proto_ll 20 ∷ [])
    ∷ config 32 4 (choice algo_ring proto_ll 20 ∷ choice algo_ring proto_ll 21 ∷ [])
    ∷ config 48 6 (choice algo_ring proto_ll 21 ∷ choice algo_ring proto_ll 22 ∷ [])
    ∷ config 64 8 (choice algo_ring proto_ll 21 ∷ choice algo_ring proto_ll 22 ∷ [])
    ∷ config 80 10 (choice algo_ring proto_ll 21 ∷ choice algo_ring proto_ll 22 ∷ [])
    ∷ config 96 12 (choice algo_ring proto_ll 22 ∷ [])
    ∷ config 112 14 ([])
    ∷ config 128 16 ([])
    ∷ []

-- `allgather_tuner_cfgs`, without the blank rows behind the first kTunerCfgNum.
abbrev pub allgather_tuner_cfgs : List TunerConfig
allgather_tuner_cfgs =
    config 16 2 (choice algo_ring proto_ll 20 ∷ [])
    ∷ config 32 4 (choice algo_ring proto_ll 20 ∷ choice algo_ring proto_ll 21 ∷ [])
    ∷ config 48 6 (choice algo_ring proto_ll 21 ∷ [])
    ∷ config 64 8 (choice algo_ring proto_ll 21 ∷ choice algo_ring proto_ll 22 ∷ [])
    ∷ config 80 10 (choice algo_ring proto_ll 21 ∷ choice algo_ring proto_ll 22 ∷ [])
    ∷ config 96 12 (choice algo_ring proto_ll 22 ∷ [])
    ∷ config 112 14 ([])
    ∷ config 128 16 ([])
    ∷ []
