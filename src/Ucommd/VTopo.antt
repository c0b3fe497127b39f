-- ===== src/Ucommd/VTopo.antt =====
-- class GenVTopo of src/ucommd/gen_vtopo.cc: which GPUs and network cards go behind one switch of the
-- virtual topology. What the files of /sys and the environment say comes in as an argument; the text
-- that is written to the topology file is left out. A string is the list of its character codes.
mod Placing
mod Switches
mod Tests
use nccl_exts.Prelude.{
  ℕ, zero, suc, ◌+◌, ◌-◌, ◌*◌, ◌/◌, ◌%◌, ◌^◌, Bool, true, false, not, ◌&&◌, ◌||◌, List, [], ◌∷◌,
  ◌++◌, Option, none, some, ltb, leb, ◌==◌, if◌then◌else◌, length, take, drop, get_elem?,
}
use nccl_exts.Prelude.Int.{ℤ}
use nccl_exts.Interfaces.{equal_up_to}

abbrev pub Text : Type 0
Text = List ℕ

-- An entry of /sys/bus/pci/drivers/nvidia, with the line of its `class` if it can be read.
pub record PciEntry : Type 0 where
  pub name : Text
  pub dev_class : Option Text

-- An entry of /sys/class/infiniband, with the first character of its `node_type` and its `hca_type`.
pub record IbEntry : Type 0 where
  pub name : Text
  pub node_type : Option ℕ
  pub hca_type : Option Text

-- What the constructor and `gen` find in the environment and under /sys.
pub record VTopoHost : Type 0 where
  pub disable : Option Text
  pub topo_file : Option Text
  pub product : Option Text
  pub board : Option Text
  pub cpuid : ℕ
  pub nvidia : List PciEntry
  pub infiniband : List IbEntry
  pub nv_path : Text → Option Text
  pub ib_path : Text → Option Text
  pub device : Text → Option Text
  pub numa_node : Text → Option Text

-- upp_devs_: a map from the upstream port to its devices, in the order of the ports.
abbrev pub Ports : Type 0
Ports = List (Text × List Text)

pub record GenVTopo : Type 0 where
  pub upp_devs : Ports
  pub nvdevs : List Text
  pub ibdevs : List Text

abbrev pub same_text : Text → Text → Bool
same_text a b = equal_up_to (suc (length a)) a b

-- `s.rfind(prefix, 0) == 0`.
abbrev pub starts_with : Text → Text → Bool
starts_with prefix s = equal_up_to (length prefix) s prefix

-- The order of std::string.
unfoldable pub lt_text : Text → Text → Bool
lt_text a [] = false
lt_text [] (y ∷ ys) = true
lt_text (x ∷ xs) (y ∷ ys) = let rest = lt_text xs ys in if x == y then rest else ltb x y

-- std::sort, by insertion.
unfoldable pub insert_text : Text → List Text → List Text
insert_text d [] = d ∷ []
insert_text d (e ∷ es) =
    let later = e ∷ insert_text d es in if lt_text e d then later else d ∷ e ∷ es

unfoldable pub sort_texts : List Text → List Text
sort_texts [] = []
sort_texts (d ∷ ds) = insert_text d (sort_texts ds)

-- `upp_devs_[port].push_back(dev)`.
unfoldable pub push_dev : Text → Text → Ports → Ports
push_dev port dev [] = (port, dev ∷ []) ∷ []
push_dev port dev ((p, devs) ∷ ports) =
    let later = (p, devs) ∷ push_dev port dev ports in
    if same_text p port
    then (p, devs ++ (dev ∷ [])) ∷ ports
    else if lt_text port p
    then (port, dev ∷ []) ∷ (p, devs) ∷ ports
    else later

-- The characters of "0x030200" and the like.
abbrev pub zero_x : Text → Text
zero_x s = b'0' ∷ b'x' ∷ s

-- `env && env[0]`, and `env && env[0] > '0'`.
abbrev pub is_set : Option Text → Bool
is_set none = false
is_set (some []) = false
is_set (some (c ∷ cs)) = true

abbrev pub is_on : Option Text → Bool
is_on none = false
is_on (some []) = false
is_on (some (c ∷ cs)) = ltb b'0' c

-- "NF5688-M7".
abbrev pub board_name : Text
board_name = b'N' ∷ b'F' ∷ b'5' ∷ b'6' ∷ b'8' ∷ b'8' ∷ b'-' ∷ b'M' ∷ b'7' ∷ []

-- Both names can be read, and one of them begins with the name of the board.
unfoldable pub is_board : Option Text → Option Text → Bool
is_board none board = false
is_board (some pname) none = false
is_board (some pname) (some bname) = starts_with board_name pname || starts_with board_name bname

-- The family and the model of the processor, from the bit fields of register eax.
unfoldable pub model_id : ℕ → ℕ
model_id val = val / 2 ^ 4 % 2 ^ 4 + val / 2 ^ 16 % 2 ^ 4 * 2 ^ 4

unfoldable pub family_id : ℕ → ℕ
family_id val = val / 2 ^ 8 % 2 ^ 4 + val / 2 ^ 20 % 2 ^ 8 * 2 ^ 4

-- "0x030200" and "0x030000".
unfoldable pub is_gpu : PciEntry → Bool
is_gpu e = elim e.name [
  | [] ↦ false
  | c ∷ cs ↦ elim e.dev_class [
    | none ↦ false
    | some line ↦
        (c == b'0')
        && (same_text (zero_x (b'0' ∷ b'3' ∷ b'0' ∷ b'2' ∷ b'0' ∷ b'0' ∷ [])) line
            || same_text (zero_x (b'0' ∷ b'3' ∷ b'0' ∷ b'0' ∷ b'0' ∷ b'0' ∷ [])) line)
  ]
]

unfoldable pub gpu_names : List PciEntry → List Text
gpu_names [] = []
gpu_names (e ∷ es) = let rest = gpu_names es in if is_gpu e then e.name ∷ rest else rest

-- "MT41" and two more characters.
abbrev pub mt41 : ℕ → ℕ → Text
mt41 a b = b'M' ∷ b'T' ∷ b'4' ∷ b'1' ∷ a ∷ b ∷ []

unfoldable pub is_card_type : Text → Bool
is_card_type t =
    same_text (mt41 b'2' b'3') t
    || (same_text (mt41 b'2' b'5') t
        || (same_text (mt41 b'2' b'9') t
            || (same_text (mt41 b'3' b'1') t || same_text (mt41 b'2' b'4') t)))

unfoldable pub is_card : IbEntry → Bool
is_card e =
    not (same_text e.name (b'.' ∷ []))
    && not (same_text e.name (b'.' ∷ b'.' ∷ []))
    && elim e.node_type [ none ↦ false | some c ↦ leb b'1' c && leb c b'3' ]
    && elim e.hca_type [ none ↦ false | some t ↦ is_card_type t ]

unfoldable pub card_names : List IbEntry → List Text
card_names [] = []
card_names (e ∷ es) = let rest = card_names es in if is_card e then e.name ∷ rest else rest

-- "/sys/devices/pci000", and the two domains behind it, "0:" and "1:".
abbrev pub sys_dev : ℕ → Text
sys_dev domain =
    b'/' ∷ b's' ∷ b'y' ∷ b's' ∷ b'/' ∷ b'd' ∷ b'e' ∷ b'v' ∷ b'i' ∷ b'c' ∷ b'e' ∷ b's' ∷ b'/' ∷ b'p'
    ∷ b'c' ∷ b'i' ∷ b'0' ∷ b'0' ∷ b'0' ∷ domain ∷ b':' ∷ []

-- The upstream port in a path: 12 characters behind those of "/sys/devices/pci0000:00/0000:00:00.0/".
-- On a shorter path substr throws std::out_of_range, `none`.
unfoldable pub up_port : Text → Option Text
up_port path = if ltb (length path) 37 then none else some (take 12 (drop 37 path))

-- A device with its real path, if it has one, goes to its port under the name `label path`.
unfoldable pub place : (Text → Text) → Option Text → Ports → Option Ports
place label none ports = some ports
place label (some path) ports =
    if starts_with (sys_dev b'0') path || starts_with (sys_dev b'1') path
    then elim (up_port path) [ none ↦ none | some port ↦ some (push_dev port (label path) ports) ]
    else some ports

-- The loop over the GPUs.
unfoldable pub place_gpus : (Text → Option Text) → List Text → Ports → Option Ports
place_gpus real_path [] ports = some ports
place_gpus real_path (d ∷ ds) ports = elim (place (λ path. d) (real_path d) ports) [
  | none ↦ none
  | some ports' ↦ place_gpus real_path ds ports'
]

-- The bus id at the end of a path.
abbrev pub bus_id : Text → Text
bus_id path = drop (length path - 12) path

-- The loop over the cards.
unfoldable pub place_cards : (Text → Option Text) → List Text → Ports → Option Ports
place_cards real_path [] ports = some ports
place_cards real_path (d ∷ ds) ports = elim (place bus_id (real_path d) ports) [
  | none ↦ none
  | some ports' ↦ place_cards real_path ds ports'
]

-- "0xc030".
unfoldable pub are_switches : (Text → Option Text) → Ports → Bool
are_switches device [] = true
are_switches device ((p, devs) ∷ ports) =
    elim (device p) [
      | none ↦ false
      | some dev ↦ same_text dev (zero_x (b'c' ∷ b'0' ∷ b'3' ∷ b'0' ∷ []))
    ]
    && are_switches device ports

-- One of each two neighbours has two devices. The number of ports is 8 here, so that no port is left
-- over.
unfoldable pub are_pairs : Ports → Bool
are_pairs [] = true
are_pairs (x ∷ []) = false
are_pairs ((p, xs) ∷ (q, ys) ∷ ports) = ((length xs == 2) || (length ys == 2)) && are_pairs ports

-- The ports behind the two loops, or none when a test fails.
unfoldable pub checked_ports : (Text → Option Text) → ℕ → Ports → Ports
checked_ports device n ports =
    if (length ports == n) && (are_switches device ports && are_pairs ports) then ports else []

-- From the ports of the GPUs on, with the names in order.
unfoldable pub add_cards : VTopoHost → List Text → List Text → Ports → Option GenVTopo
add_cards h nvs ibs ports = elim (place_cards h.ib_path ibs ports) [
  | none ↦ none
  | some ports' ↦
      some (record {
        upp_devs = checked_ports h.device (length nvs) ports';
        nvdevs = nvs;
        ibdevs = ibs;
      })
]

-- From the GPUs and cards that were found on.
unfoldable pub place_all : VTopoHost → List Text → List Text → Option GenVTopo
place_all h nvdevs ibdevs =
    let nvs = sort_texts nvdevs in
    elim (place_gpus h.nv_path nvs []) [
      | none ↦ none
      | some ports ↦
          if length nvs == length ports
          then add_cards h nvs (sort_texts ibdevs) ports
          else some (record { upp_devs = []; nvdevs = nvs; ibdevs = ibdevs })
    ]

abbrev pub blank : GenVTopo
blank = record { upp_devs = []; nvdevs = []; ibdevs = [] }

-- The constructor: `none` when it throws.
unfoldable pub construct : VTopoHost → Option GenVTopo
construct h =
    let nvs = gpu_names h.nvidia in
    let ibs = card_names h.infiniband in
    let all = place_all h nvs ibs in
    if is_on h.disable || is_set h.topo_file
    then some blank
    else if not (is_board h.product h.board)
    then some blank
    else if not ((family_id h.cpuid == 6) && (model_id h.cpuid == 143))
    then some blank
    else if not (length nvs == 8)
    then some (record blank { nvdevs = nvs })
    else if not (length ibs == 4)
    then some (record { upp_devs = []; nvdevs = nvs; ibdevs = ibs })
    else all

-- A switch of the topology: topo[numa][port] and its devices, in the order of their insertion. The
-- source keeps the switches in maps by node and port and the devices in sets.
pub record Switch : Type 0 where
  pub numa : ℤ
  pub port : Text
  pub devs : List Text

-- Three devices are inserted, if there are that many.
unfoldable pub at_switch : ℤ → Text → Option Text → Option Text → Option Text → Option Switch
at_switch numa port (some a) (some b) (some c) =
    some (record { numa = numa; port = port; devs = a ∷ b ∷ c ∷ [] })
at_switch numa port _ _ _ = none

module _ (atoi : Text → ℤ) where
  -- The lambda get_numa_node.
  abbrev pub get_numa_node : VTopoHost → Text → ℤ
  get_numa_node h port = elim (h.numa_node port) [ none ↦ ℤ.pos 0 | some line ↦ atoi line ]

  -- The switch of two neighbours. `at` throws when a device is missing, `none`.
  unfoldable pub join_ports : VTopoHost → Text × List Text → Text × List Text → Option Switch
  join_ports h (p, xs) (q, ys) =
      if length xs == 2
      then at_switch (get_numa_node h p) p (get_elem? xs 0) (get_elem? xs 1) (get_elem? ys 0)
      else at_switch (get_numa_node h q) q (get_elem? xs 0) (get_elem? ys 0) (get_elem? ys 1)

  -- The loop of `gen`; a port that is left over is undefined behaviour, `none`.
  unfoldable pub gen_switches : VTopoHost → Ports → Option (List Switch)
  gen_switches h [] = some []
  gen_switches h (x ∷ []) = none
  gen_switches h (x ∷ y ∷ ports) = elim (join_ports h x y) [
    | none ↦ none
    | some s ↦ elim (gen_switches h ports) [ none ↦ none | some ss ↦ some (s ∷ ss) ]
  ]
