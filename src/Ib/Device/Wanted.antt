-- ===== src/Ib/Device/Wanted.antt =====
-- Which ports ncclIbInit of src/unet/unet_ib.cc is to take, apart from how it finds them.
use nccl_exts.Prelude.{
  ℕ, zero, suc, ◌*◌, ◌≤◌, ◌≡◌, ◌≢◌, ◌↔◌, ◌⊎◌, inl, inr, refl, ap, Bool, true, false, not, ◌&&◌,
  ◌||◌, Bool-cases, &&-both, List, [], ◌∷◌, leb→le, ◌==◌, ==_iff, if◌then◌else◌, arith, get_or,
}
use nccl_exts.Prelude.Int.{ℤ, pos, negsuc, pos_part}
use nccl_exts.Interfaces.{NetIf, match_if, match_port, match_any, match_if_list}
use nccl_exts.Interfaces.Matches.{Matches, match_if-Matches}
use nccl_exts.Ib.Device.{LinkLayer, infiniband, ethernet, unspecified, same_link, PortAttr}
use nccl_exts.Ib.Device.Speed.{
  IsFirstBit, first_bit_set-IsFirstBit, ib_speed, ib_width, first_bit_set,
}
use nccl_exts.Ib.Device.Discovery.{Filter, is_wanted, is_usable, port_speed}

-- An item without a port is for all ports.
abbrev pub IsFor : ℕ → ℤ → Type 0
IsFor port p = (p ≡ negsuc 0) ⊎ (p ≡ pos port)

-- One of the items is for the port, and its name is that of the device, or begins it.
abbrev pub IsListedAt : Bool → List ℕ → ℕ → List NetIf → Type 0
IsListedAt exact name port [] = ⊥
IsListedAt exact name port (i ∷ ifs) =
    (Matches exact name i.prefix × IsFor port i.port) ⊎ IsListedAt exact name port ifs

-- The user asks for the port: it is listed, or nothing is; behind `^` something is listed, and not it.
abbrev pub AsksFor : Bool → Filter → List ℕ → ℕ → Type 0
AsksFor false f name port = (f.user_ifs ≡ []) ⊎ IsListedAt f.search_exact name port f.user_ifs
AsksFor true f name port = (f.user_ifs ≢ []) × (IsListedAt f.search_exact name port f.user_ifs → ⊥)

match_port-IsFor : (port : ℕ) (p : ℤ) → (match_port (pos port) p ≡ true) ↔ IsFor port p
unfolding match_port
match_port-IsFor port (pos n) =
    let same : pos n ≡ pos port → n ≡ port = λ e. ap pos_part e in
    (
      λ h. inr (ap pos (ground (arith, h))),
      λ h. elim h [ inl e ↦ absurd (cc) | inr e ↦ ground (arith, same e) ],
    )
match_port-IsFor port (negsuc zero) = (λ h. inl refl, λ h. refl)
match_port-IsFor port (negsuc (suc n)) = (
  λ h. absurd (ground (arith, h)),
  λ h. elim h [ inl e ↦ absurd (ground (arith, e)) | inr e ↦ absurd (cc) ],
)

match_any-IsListedAt :
    (exact : Bool) (name : List ℕ) (port : ℕ) (ifs : List NetIf)
    → (match_any name (pos port) exact ifs ≡ true) ↔ IsListedAt exact name port ifs
unfolding match_any
match_any-IsListedAt exact name port [] = (λ h. absurd (ground (arith, h)), λ h. absurd h)
match_any-IsListedAt exact name port (i ∷ ifs) =
    let (named, name_of) = match_if-Matches name i.prefix exact in
    let (for_it, port_of) = match_port-IsFor port i.port in
    let (listed, match_of) = match_any-IsListedAt exact name port ifs in
    (
      λ h. elim (Bool-cases (match_if name i.prefix exact && match_port (pos port) i.port)) [
        | inl t ↦
            let (a, b) = &&-both (match_if name i.prefix exact) (match_port (pos port) i.port) t in
            inl (named a, for_it b)
        | inr f ↦ inr (listed (rw f at h))
      ],
      λ h. elim h [
        | inl (a, b) ↦ simp (name_of a, port_of b)
        | inr l ↦ elim (Bool-cases (match_if name i.prefix exact && match_port (pos port) i.port)) [
          | inl t ↦ simp t
          | inr f ↦ simp (f, match_of l)
        ]
      ],
    )

match_if_list_iff :
    (exact : Bool) (name : List ℕ) (port : ℕ) (ifs : List NetIf)
    → (match_if_list name (pos port) ifs exact ≡ true)
      ↔ ((ifs ≡ []) ⊎ IsListedAt exact name port ifs)
unfolding match_if_list
match_if_list_iff exact name port [] = (λ _. inl refl, λ _. refl)
match_if_list_iff exact name port (i ∷ ifs) =
    let (fwd, back) = match_any-IsListedAt exact name port (i ∷ ifs) in
    (λ h. inr (fwd h), λ h. elim h [ inl e ↦ absurd (cc) | inr l ↦ back l ])

pub is_wanted-AsksFor :
    (f : Filter) (name : List ℕ) (port : ℕ)
    → is_wanted f name port ≡ true
    → AsksFor f.search_not f name port
unfolding is_wanted
is_wanted-AsksFor f name port h =
    go f.search_not (match_if_list name (pos port) f.user_ifs f.search_exact)
      (match_if_list_iff f.search_exact name port f.user_ifs) h
  where
    go :
        (n m : Bool)
        → (m ≡ true) ↔ ((f.user_ifs ≡ []) ⊎ IsListedAt f.search_exact name port f.user_ifs)
        → (if n then not m else m) ≡ true
        → AsksFor n f name port
    go false m (fwd, back) e = fwd e
    go true true (fwd, back) e = absurd (ground (arith, e))
    go true false (fwd, back) e =
        (λ k. absurd (ground (arith, back (inl k))), λ l. absurd (ground (arith, back (inr l))))

-- A port of a known link layer that is active and whose physical state is LinkUp.
pub record IsUp (a : PortAttr) : Type 0 where
  pub active : a.is_active ≡ true
  pub link_up : a.phys_state ≡ 5
  pub layer : (a.link_layer ≡ infiniband) ⊎ (a.link_layer ≡ ethernet)

-- The speed of a port in Mb/s: that of the lowest bit set in its speed by the lanes of the lowest bit
-- set in its width, where the speed and the width without a known bit have the last entries.
abbrev pub IsSpeed : PortAttr → ℕ → Type 0
IsSpeed a speed =
    (s w : ℕ) × (IsFirstBit a.active_speed 0 7 s
      × (IsFirstBit a.active_width 0 4 w
          × (speed
              ≡ get_or (2500 ∷ 5000 ∷ 10000 ∷ 10000 ∷ 14000 ∷ 25000 ∷ 50000 ∷ 100000 ∷ []) s 0
                * get_or (1 ∷ 4 ∷ 8 ∷ 12 ∷ 2 ∷ []) w 0)))

pub port_speed-IsSpeed : (a : PortAttr) → IsSpeed a (port_speed a)
unfolding ib_speed ib_width
port_speed-IsSpeed a = (
  first_bit_set a.active_speed 7,
  first_bit_set a.active_width 4,
  (first_bit_set-IsFirstBit a.active_speed 7, (first_bit_set-IsFirstBit a.active_width 4, refl)),
)

known_layer :
    (l : LinkLayer)
    → (same_link l infiniband || same_link l ethernet) ≡ true
    → (l ≡ infiniband) ⊎ (l ≡ ethernet)
known_layer infiniband h = inl refl
known_layer ethernet h = inr refl
known_layer unspecified h = absurd (ground (arith, h))

pub is_usable-IsUp : (a : PortAttr) → is_usable a ≡ true → IsUp a × (100000 ≤ port_speed a)
unfolding is_usable
is_usable-IsUp a h =
    let (active, rest) = &&-both a.is_active _ h in
    let (phys, rest') = &&-both (a.phys_state == 5) _ rest in
    let (layer, fast) =
      &&-both (same_link a.link_layer infiniband || same_link a.link_layer ethernet) _ rest' in
    (
      record {
        active = active;
        link_up = (==_iff a.phys_state 5).0 phys;
        layer = known_layer a.link_layer layer;
      },
      leb→le 100000 (port_speed a) fast,
    )
