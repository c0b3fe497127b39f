-- ===== src/Ucommd/VTopo/Placing.antt =====
-- How many devices the loops of src/ucommd/gen_vtopo.cc put behind the upstream ports.
use nccl_exts.Prelude.{
  ℕ, suc, ◌+◌, ◌≤◌, ◌≡◌, inl, inr, refl, ◌||◌, List, [], ◌∷◌, Option, none, some, arith, length,
  Bool-cases, length-append,
}
use nccl_exts.Ucommd.VTopo.{
  Text, Ports, same_text, lt_text, push_dev, place, place_gpus, place_cards, up_port, starts_with,
  sys_dev,
}

-- How many devices the ports have together.
unfoldable pub total : Ports → ℕ
total [] = 0
total ((p, devs) ∷ ports) = length devs + total ports

-- Each port has a device.
abbrev pub AllUsed : Ports → Type 0
AllUsed [] = Unit
AllUsed ((p, devs) ∷ ports) = (1 ≤ length devs) × AllUsed ports

module _ (port dev : Text) where
  total-push_dev : (ports : Ports) → total (push_dev port dev ports) ≡ suc (total ports)
  unfolding push_dev total
  total-push_dev [] = refl
  total-push_dev ((p, devs) ∷ ports) =
      let ih = total-push_dev ports in
      let grown = length-append devs (dev ∷ []) in ground (arith, ih, grown)

  push_dev-AllUsed : (ports : Ports) → AllUsed ports → AllUsed (push_dev port dev ports)
  unfolding push_dev
  push_dev-AllUsed [] h = (omega arith, tt)
  push_dev-AllUsed ((p, devs) ∷ ports) (d, rest) = elim (Bool-cases (same_text p port)) [
    | inl t ↦ simp (t, length-append) (omega arith, rest)
    | inr f ↦ elim (Bool-cases (lt_text port p)) [
      | inl t ↦ simp (f, t) (omega arith, (d, rest))
      | inr g ↦ simp (f, g) (d, push_dev-AllUsed ports rest)
    ]
  ]

-- Every port has a device, and `n` more devices are there at most.
abbrev pub Grown : ℕ → Ports → Option Ports → Type 0
Grown n before none = Unit
Grown n before (some after) = (total after ≤ n + total before) × AllUsed after

place-Grown :
    (label : Text → Text) (path : Option Text) (ports : Ports)
    → AllUsed ports
    → Grown 1 ports (place label path ports)
unfolding place
place-Grown label none ports h = (omega arith, h)
place-Grown label (some path) ports h =
    elim (Bool-cases (starts_with (sys_dev b'0') path || starts_with (sys_dev b'1') path)) [
      | inl t ↦ rw t (go (up_port path))
      | inr f ↦ rw f (omega arith, h)
    ]
  where
    go :
        (o : Option Text)
        → Grown 1 ports
            (elim o [ none ↦ none | some port ↦ some (push_dev port (label path) ports) ])
    go none = tt
    go (some port) =
        let pushed = total-push_dev port (label path) ports in
        (omega arith, push_dev-AllUsed port (label path) ports h)

-- One step and the rest of the loop.
Grown-next :
    (n : ℕ) (before : Ports) (o : Option Ports) (f : Ports → Option Ports)
    → Grown 1 before o
    → ((mid : Ports) → AllUsed mid → Grown n mid (f mid))
    → Grown (suc n) before (elim o [ none ↦ none | some mid ↦ f mid ])
Grown-next n before none f h k = tt
Grown-next n before (some mid) f (le, used) k = go (f mid) (k mid used)
  where
    go : (o : Option Ports) → Grown n mid o → Grown (suc n) before o
    go none g = tt
    go (some after) (le', used') = (omega arith, used')

pub place_gpus-Grown :
    (real_path : Text → Option Text) (ds : List Text) (ports : Ports)
    → AllUsed ports
    → Grown (length ds) ports (place_gpus real_path ds ports)
unfolding place_gpus
place_gpus-Grown real_path [] ports h = (omega arith, h)
place_gpus-Grown real_path (d ∷ ds) ports h =
    Grown-next (length ds) ports _ _ (place-Grown _ (real_path d) ports h)
      (place_gpus-Grown real_path ds)

pub place_cards-Grown :
    (real_path : Text → Option Text) (ds : List Text) (ports : Ports)
    → AllUsed ports
    → Grown (length ds) ports (place_cards real_path ds ports)
unfolding place_cards
place_cards-Grown real_path [] ports h = (omega arith, h)
place_cards-Grown real_path (d ∷ ds) ports h =
    Grown-next (length ds) ports _ _ (place-Grown _ (real_path d) ports h)
      (place_cards-Grown real_path ds)
