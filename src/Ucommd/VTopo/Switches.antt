-- ===== src/Ucommd/VTopo/Switches.antt =====
-- The switches of the virtual topology of src/ucommd/gen_vtopo.cc lose no device.
use nccl_exts.Prelude.{
  ℕ, suc, ◌+◌, ◌*◌, ◌≤◌, ◌≡◌, ◌⊎◌, inl, inr, refl, Bool, true, false, ◌&&◌, ◌||◌, List, [], ◌∷◌,
  ◌++◌, Option, none, some, arith, ◌==◌, if◌then◌else◌, length, get_elem?, Bool-cases, &&-both, ◌∙◌,
  not, Option-cases,
}
use nccl_exts.Prelude.Int.{ℤ}
use nccl_exts.Ucommd.VTopo.{
  Text, VTopoHost, Ports, GenVTopo, insert_text, sort_texts, place_gpus, place_cards, are_switches,
  are_pairs, checked_ports, place_all, construct, Switch, at_switch, join_ports, gen_switches,
  add_cards, gpu_names, card_names, is_on, is_set, blank, is_board, family_id, model_id,
}
use mathlib.Core.Path.{subst}
use nccl_exts.Ucommd.VTopo.Placing.{total, AllUsed, Grown, place_gpus-Grown, place_cards-Grown}

-- Each switch has the devices of two neighbours, and nothing else.
abbrev pub HoldAll : Ports → List Switch → Type 0
HoldAll [] [] = Unit
HoldAll [] (s ∷ ss) = ⊥
HoldAll (x ∷ []) ss = ⊥
HoldAll (x ∷ y ∷ ports) [] = ⊥
HoldAll ((p, xs) ∷ (q, ys) ∷ ports) (s ∷ ss) = (s.devs ≡ xs ++ ys) × HoldAll ports ss

||-cases : (a b : Bool) → (a || b) ≡ true → (a ≡ true) ⊎ ((a ≡ false) × (b ≡ true))
||-cases true b h = inl refl
||-cases false b h = inr (refl, h)

-- Of two neighbours the first has two devices, or it has not and the second has.
are_pairs-cases :
    (p q : Text) (xs ys : List Text) (ports : Ports)
    → are_pairs ((p, xs) ∷ (q, ys) ∷ ports) ≡ true
    → ((length xs ≡ 2) ⊎ (((length xs == 2) ≡ false) × (length ys ≡ 2))) × (are_pairs ports ≡ true)
unfolding are_pairs
are_pairs-cases p q xs ys ports e =
    let (some_two, rest) = &&-both ((length xs == 2) || (length ys == 2)) (are_pairs ports) e in
    (
      elim (||-cases (length xs == 2) (length ys == 2) some_two) [
        | inl t ↦ inl (ground (arith, t))
        | inr (f, t) ↦ inr (f, ground (arith, t))
      ],
      rest,
    )

-- Two neighbours have three devices at least.
total-le :
    (ports : Ports) → AllUsed ports → are_pairs ports ≡ true → 3 * length ports ≤ 2 * total ports
unfolding total are_pairs
total-le [] h e = omega arith
total-le (x ∷ []) h e = absurd (ground (arith, e))
total-le ((p, xs) ∷ (q, ys) ∷ ports) (a, (b, h)) e =
    let (two, rest) = are_pairs-cases p q xs ys ports e in
    let ih = total-le ports h rest in elim two [ inl t ↦ omega arith | inr (f, t) ↦ omega arith ]

-- The switch of two neighbours of two devices and one, and of one and two.
abbrev Joins : List Text → List Text → Option Switch → Type 0
Joins xs ys o = (s : Switch) × ((o ≡ some s) × (s.devs ≡ xs ++ ys))

two_one :
    (n : ℤ) (port : Text) (xs ys : List Text)
    → length xs ≡ 2
    → length ys ≡ 1
    → Joins xs ys (at_switch n port (get_elem? xs 0) (get_elem? xs 1) (get_elem? ys 0))
unfolding at_switch
two_one n port (x ∷ x' ∷ []) (y ∷ []) h k = (_, (refl, refl))
two_one n port [] ys h k = absurd (omega arith)
two_one n port (x ∷ []) ys h k = absurd (omega arith)
two_one n port (x ∷ x' ∷ x'' ∷ xs) ys h k = absurd (omega arith)
two_one n port (x ∷ x' ∷ []) [] h k = absurd (omega arith)
two_one n port (x ∷ x' ∷ []) (y ∷ y' ∷ ys) h k = absurd (omega arith)

one_two :
    (n : ℤ) (port : Text) (xs ys : List Text)
    → length xs ≡ 1
    → length ys ≡ 2
    → Joins xs ys (at_switch n port (get_elem? xs 0) (get_elem? ys 0) (get_elem? ys 1))
unfolding at_switch
one_two n port (x ∷ []) (y ∷ y' ∷ []) h k = (_, (refl, refl))
one_two n port [] ys h k = absurd (omega arith)
one_two n port (x ∷ x' ∷ xs) ys h k = absurd (omega arith)
one_two n port (x ∷ []) [] h k = absurd (omega arith)
one_two n port (x ∷ []) (y ∷ []) h k = absurd (omega arith)
one_two n port (x ∷ []) (y ∷ y' ∷ y'' ∷ ys) h k = absurd (omega arith)

module _ (atoi : Text → ℤ) (h : VTopoHost) where
  join_ports-Joins :
      (p q : Text) (xs ys : List Text)
      → (length xs ≡ 2) ⊎ (((length xs == 2) ≡ false) × (length ys ≡ 2))
      → length xs + length ys ≡ 3
      → Joins xs ys (join_ports atoi h (p, xs) (q, ys))
  unfolding join_ports
  join_ports-Joins p q xs ys (inl t) three = simp t (two_one _ p xs ys t (omega arith))
  join_ports-Joins p q xs ys (inr (f, t)) three = simp f (one_two _ q xs ys (omega arith) t)

  gen_switches-step :
      (x y : Text × List Text) (ports : Ports) (s : Switch) (ss : List Switch)
      → join_ports atoi h x y ≡ some s
      → gen_switches atoi h ports ≡ some ss
      → gen_switches atoi h (x ∷ y ∷ ports) ≡ some (s ∷ ss)
  unfolding gen_switches
  gen_switches-step x y ports s ss joined made = simp (gen_switches, joined, made)

  -- No device is lost when there are no more than three for two ports.
  gen_switches-HoldAll :
      (ports : Ports)
      → AllUsed ports
      → are_pairs ports ≡ true
      → 2 * total ports ≤ 3 * length ports
      → (ss : List Switch) × ((gen_switches atoi h ports ≡ some ss) × HoldAll ports ss)
  unfolding gen_switches are_pairs total
  gen_switches-HoldAll [] used e le = ([], (refl, tt))
  gen_switches-HoldAll (x ∷ []) used e le = absurd (ground (arith, e))
  gen_switches-HoldAll ((p, xs) ∷ (q, ys) ∷ ports) (a, (b, used)) e le =
      let (two, rest) = are_pairs-cases p q xs ys ports e in
      let enough = total-le ports used rest in
      let three : length xs + length ys ≡ 3 = elim two [
        | inl t ↦ omega arith
        | inr (f, t) ↦ omega arith
      ] in
      let (s, (joined, held)) = join_ports-Joins p q xs ys two three in
      let (ss, (made, all)) = gen_switches-HoldAll ports used rest (omega arith) in
      (s ∷ ss, (gen_switches-step (p, xs) (q, ys) ports s ss joined made, (held, all)))

  -- The topology of a host: the constructor throws, or its ports make switches.
  abbrev pub IsMade : GenVTopo → Type 0
  IsMade v =
      ((v.upp_devs ≡ []) ⊎ (length v.upp_devs ≡ 8))
      × ((ss : List Switch) × ((gen_switches atoi h v.upp_devs ≡ some ss) × HoldAll v.upp_devs ss))

  abbrev pub EndsMade : Option GenVTopo → Type 0
  EndsMade none = Unit
  EndsMade (some v) = IsMade v

  IsMade-none :
      (nvs ibs : List Text) → IsMade (record { upp_devs = []; nvdevs = nvs; ibdevs = ibs })
  unfolding gen_switches
  IsMade-none nvs ibs = (inl refl, ([], (refl, tt)))

  -- The last tests, on ports with no more than twelve devices.
  checked_ports-IsMade :
      (nvs ibs : List Text) (ports : Ports)
      → AllUsed ports
      → total ports ≤ 12
      → length nvs ≡ 8
      → IsMade (record {
        upp_devs = checked_ports h.device (length nvs) ports;
        nvdevs = nvs;
        ibdevs = ibs;
      })
  unfolding checked_ports
  checked_ports-IsMade nvs ibs ports used le n =
      let test = (length ports == length nvs) && (are_switches h.device ports && are_pairs ports) in
      elim (Bool-cases test) [
        | inl t ↦
            let (size, rest) = &&-both (length ports == length nvs) _ t in
            let (_, pairs) = &&-both (are_switches h.device ports) _ rest in
            let eight : length ports ≡ 8 = ground (arith, size, n) in
            simp t (inr eight, gen_switches-HoldAll ports used pairs (omega arith))
        | inr f ↦ simp f (IsMade-none nvs ibs)
      ]

  length-insert_text : (d : Text) (ds : List Text) → length (insert_text d ds) ≡ suc (length ds)
  unfolding insert_text
  length-insert_text d [] = refl
  length-insert_text d (e ∷ es) = let ih = length-insert_text d es in ground (arith, ih)

  length-sort_texts : (ds : List Text) → length (sort_texts ds) ≡ length ds
  unfolding sort_texts
  length-sort_texts [] = refl
  length-sort_texts (d ∷ ds) =
      let ih = length-sort_texts ds in
      let more = length-insert_text d (sort_texts ds) in omega arith

  add_cards-EndsMade :
      (nvs ibs : List Text) (ports : Ports)
      → AllUsed ports
      → total ports ≤ 8
      → length nvs ≡ 8
      → length ibs ≡ 4
      → EndsMade (add_cards h nvs ibs ports)
  unfolding add_cards
  add_cards-EndsMade nvs ibs ports used le n c =
      go (place_cards h.ib_path ibs ports) (place_cards-Grown h.ib_path ibs ports used)
    where
      go :
          (o : Option Ports)
          → Grown (length ibs) ports o
          → EndsMade (elim o [
            | none ↦ none
            | some ports' ↦ some (record {
              upp_devs = checked_ports h.device (length nvs) ports';
              nvdevs = nvs;
              ibdevs = ibs;
            })
          ])
      go none g = tt
      go (some ports') (le', used') = checked_ports-IsMade nvs ibs ports' used' (omega arith) n

  place_all-EndsMade :
      (nvs ibs : List Text) → length nvs ≡ 8 → length ibs ≡ 4 → EndsMade (place_all h nvs ibs)
  unfolding place_all total
  place_all-EndsMade nvs ibs n c =
      let sorted = sort_texts nvs in
      let n' : length sorted ≡ 8 = length-sort_texts nvs ∙ n in
      let c' : length (sort_texts ibs) ≡ 4 = length-sort_texts ibs ∙ c in
      go n' c' (place_gpus h.nv_path sorted []) (place_gpus-Grown h.nv_path sorted [] tt)
    where
      sorted : List Text
      sorted = sort_texts nvs

      go :
          length sorted ≡ 8
          → length (sort_texts ibs) ≡ 4
          → (o : Option Ports) → Grown (length sorted) [] o
          → EndsMade (elim o [
            | none ↦ none
            | some ports ↦
                if length sorted == length ports
                then add_cards h sorted (sort_texts ibs) ports
                else some (record { upp_devs = []; nvdevs = sorted; ibdevs = ibs })
          ])
      go n' c' none g = tt
      go n' c' (some ports) (le, used) = elim (Bool-cases (length sorted == length ports)) [
        | inl t ↦ simp t (add_cards-EndsMade sorted (sort_texts ibs) ports used (omega arith) n' c')
        | inr f ↦ simp f (IsMade-none sorted ibs)
      ]

  counted : (n k : ℕ) → not (n == k) ≡ false → n ≡ k
  counted n k e = ground arith

  -- The five early returns.
  returns-EndsMade :
      (disabled other_board other_cpu few_gpus few_cards : Bool) (nvs ibs : List Text)
      → (few_gpus ≡ false → few_cards ≡ false → EndsMade (place_all h nvs ibs))
      → EndsMade (
          if disabled
          then some blank
          else if other_board
          then some blank
          else if other_cpu
          then some blank
          else if few_gpus
          then some (record blank { nvdevs = nvs })
          else if few_cards
          then some (record { upp_devs = []; nvdevs = nvs; ibdevs = ibs })
          else place_all h nvs ibs)
  returns-EndsMade true b c d e nvs ibs k = IsMade-none [] []
  returns-EndsMade false true c d e nvs ibs k = IsMade-none [] []
  returns-EndsMade false false true d e nvs ibs k = IsMade-none [] []
  returns-EndsMade false false false true e nvs ibs k = IsMade-none nvs []
  returns-EndsMade false false false false true nvs ibs k = IsMade-none nvs ibs
  returns-EndsMade false false false false false nvs ibs k = k refl refl

  construct-EndsMade : EndsMade (construct h)
  unfolding construct
  construct-EndsMade =
      let nvs = gpu_names h.nvidia in
      let ibs = card_names h.infiniband in
      returns-EndsMade (is_on h.disable || is_set h.topo_file) (not (is_board h.product h.board))
        (not ((family_id h.cpuid == 6) && (model_id h.cpuid == 143))) (not (length nvs == 8))
        (not (length ibs == 4)) nvs ibs
        (λ eight four.
          place_all-EndsMade nvs ibs (counted (length nvs) 8 eight) (counted (length ibs) 4 four))

  -- On every host, the constructor of GenVTopo throws, or it leaves no upstream port or eight of
  -- them, and then the loop of gen reads no device out of range and makes switches that hold
  -- exactly the devices of their two ports, so that no device is lost.
  pub construct-IsMade :
      (construct h ≡ none) ⊎ ((v : GenVTopo) × ((construct h ≡ some v) × IsMade v))
  construct-IsMade = elim (Option-cases (construct h)) [
    | inl e ↦ inl e
    | inr (v, e) ↦ inr (v, (e, subst EndsMade e construct-EndsMade))
  ]
