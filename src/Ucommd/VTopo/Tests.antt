-- ===== src/Ucommd/VTopo/Tests.antt =====
-- A run of the model of src/ucommd/gen_vtopo.cc at a concrete input.
use nccl_exts.Prelude.{
  ℕ, ◌+◌, ◌*◌, ◌≡◌, ◌⊎◌, refl, [], ◌∷◌, ◌++◌, Option, none, some, length, replicate, map, get_or,
}
use nccl_exts.Prelude.Int.{ℤ, pos}
use nccl_exts.Ucommd.VTopo.{
  Text, PciEntry, IbEntry, VTopoHost, GenVTopo, mt41, zero_x, board_name, sys_dev, up_port,
  construct, is_board, family_id, model_id, gpu_names, is_gpu, card_names, is_card, is_card_type,
  place_all, place_gpus, sort_texts, insert_text, lt_text, place, push_dev, add_cards, are_pairs,
  are_switches, checked_ports, place_cards,
}
use nccl_exts.Interfaces.{equal_up_to}
use nccl_exts.Ucommd.VTopo.Switches.{IsMade, construct-IsMade}

-- The path of a device with the given last number behind the port of that number.
abbrev path_at : ℕ → ℕ → Text
path_at port last =
    sys_dev b'0'
    ++ (replicate 16 b'.' ++ (replicate 11 b'0' ++ (port ∷ (replicate 11 b'1' ++ (last ∷ [])))))

abbrev gpu : ℕ → PciEntry
gpu i = record {
  name = b'0' ∷ i ∷ [];
  dev_class = some (zero_x (b'0' ∷ b'3' ∷ b'0' ∷ b'2' ∷ b'0' ∷ b'0' ∷ []));
}

abbrev card : ℕ → IbEntry
card i = record { name = b'm' ∷ i ∷ []; node_type = some b'1'; hca_type = some (mt41 b'2' b'9') }

-- Eight GPUs at ports of their own, and a card at every second port.
abbrev host : VTopoHost
host = record {
  disable = none;
  topo_file = none;
  product = some board_name;
  board = some [];
  cpuid = 6 * 256 + 15 * 16 + 8 * 65536;
  nvidia = map gpu (7 ∷ 0 ∷ 1 ∷ 2 ∷ 3 ∷ 4 ∷ 5 ∷ 6 ∷ []);
  infiniband = map card (6 ∷ 0 ∷ 2 ∷ 4 ∷ []);
  nv_path = λ name. some (path_at (get_or name 1 0) (get_or name 1 0));
  ib_path = λ name. some (path_at (get_or name 1 0) (10 + get_or name 1 0));
  device = λ port. some (zero_x (b'c' ∷ b'0' ∷ b'3' ∷ b'0' ∷ []));
  numa_node = λ port. none;
}

abbrev atoi : Text → ℤ
atoi line = pos 0

construct-IsMade_example :
    (construct host ≡ none) ⊎ ((v : GenVTopo) × ((construct host ≡ some v) × IsMade atoi host v))
construct-IsMade_example = construct-IsMade atoi host

-- The constructor finds the eight ports.
abbrev ports_of : Option GenVTopo → ℕ
ports_of none = 0
ports_of (some v) = length v.upp_devs

eight_ports : ports_of (construct host) ≡ 8
unfolding construct is_board equal_up_to family_id model_id gpu_names is_gpu card_names is_card
    is_card_type place_all place_gpus sort_texts insert_text lt_text place up_port push_dev
    add_cards are_pairs are_switches checked_ports place_cards
eight_ports = refl
