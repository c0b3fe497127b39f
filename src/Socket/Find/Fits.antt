-- ===== src/Socket/Find/Fits.antt =====
-- Which interfaces findInterfaces of src/unet/socket.cc looks for.
use nccl_exts.Prelude.{
  ℕ, ◌≡◌, ◌≢◌, ◌↔◌, ◌⊎◌, inl, inr, refl, Bool, true, false, Bool-cases, &&-both, List, [], ◌∷◌,
  Option, none, some, arith,
}
use nccl_exts.Prelude.Int.{negsuc}
use nccl_exts.Interfaces.{NetIf, match_if, match_port, match_any, match_if_list}
use nccl_exts.Interfaces.Matches.{Matches, match_if-Matches}
use nccl_exts.Socket.Find.{
  IfAddr, addr4, addr6, other_addr, NetInterface, SockFamily, any_family, af_inet, af_inet6,
  is_loopback, has_family, xor, Wish, is_wanted,
}

-- One of the items is the name, or begins it; the ports do not count.
abbrev pub IsListed : Bool → List ℕ → List NetIf → Type 0
IsListed exact name [] = ⊥
IsListed exact name (i ∷ ifs) = Matches exact name i.prefix ⊎ IsListed exact name ifs

-- The user asks for the interface: it is listed, or the list is empty; or, behind `^`, the list is not
-- empty and it is not listed.
abbrev pub AsksFor : Bool → Wish → List ℕ → Type 0
AsksFor false w name = (w.user_ifs ≡ []) ⊎ IsListed w.search_exact name w.user_ifs
AsksFor true w name = (w.user_ifs ≢ []) × (IsListed w.search_exact name w.user_ifs → ⊥)

-- The address is of a family that is looked for, and no IPv6 loopback.
abbrev pub HasFamily : SockFamily → Option IfAddr → Type 0
HasFamily f none = ⊥
HasFamily f (some other_addr) = ⊥
HasFamily f (some (addr4 a)) = f ≢ af_inet6
HasFamily f (some (addr6 bytes scope)) = (f ≢ af_inet) × (is_loopback bytes ≡ false)

abbrev pub Fits : SockFamily → Wish → NetInterface → Type 0
Fits f w i = HasFamily f i.addr × AsksFor w.search_not w i.name

match_any-IsListed :
    (name : List ℕ) (exact : Bool) (ifs : List NetIf)
    → (match_any name (negsuc 0) exact ifs ≡ true) ↔ IsListed exact name ifs
unfolding match_any match_port
match_any-IsListed name exact [] = (λ h. absurd (ground (arith, h)), λ h. absurd h)
match_any-IsListed name exact (i ∷ ifs) =
    let (fwd, back) = match_if-Matches name i.prefix exact in
    let (fwd', back') = match_any-IsListed name exact ifs in
    (
      λ h. elim (Bool-cases (match_if name i.prefix exact)) [
        | inl t ↦ inl (fwd t)
        | inr f ↦ inr (fwd' (simp f at h))
      ],
      λ h. elim h [
        | inl m ↦ simp (back m)
        | inr l ↦ elim (Bool-cases (match_if name i.prefix exact)) [
          | inl t ↦ simp t
          | inr f ↦ simp (f, back' l)
        ]
      ],
    )

has_family-HasFamily :
    (f : SockFamily) (a : Option IfAddr) → (has_family f a ≡ true) ↔ HasFamily f a
unfolding has_family
has_family-HasFamily f none = (λ h. absurd (ground (arith, h)), λ h. absurd h)
has_family-HasFamily f (some other_addr) = (λ h. absurd (ground (arith, h)), λ h. absurd h)
has_family-HasFamily any_family (some (addr4 a)) = (λ _ e. cc, λ _. refl)
has_family-HasFamily af_inet (some (addr4 a)) = (λ _ e. cc, λ _. refl)
has_family-HasFamily af_inet6 (some (addr4 a)) =
    (λ h. absurd (ground (arith, h)), λ h. absurd (h refl))
has_family-HasFamily any_family (some (addr6 bytes scope)) =
    (λ h. ((λ e. cc), ground arith), λ h. ground (arith, h.1))
has_family-HasFamily af_inet (some (addr6 bytes scope)) =
    (λ h. absurd (ground (arith, h)), λ h. absurd (h.0 refl))
has_family-HasFamily af_inet6 (some (addr6 bytes scope)) =
    (λ h. ((λ e. cc), ground arith), λ h. ground (arith, h.1))

-- The test of the list, without the sign `^`.
wanted_iff :
    (name : List ℕ) (ifs : List NetIf) (exact : Bool)
    → (match_if_list name (negsuc 0) ifs exact ≡ true) ↔ ((ifs ≡ []) ⊎ IsListed exact name ifs)
unfolding match_if_list
wanted_iff name [] exact = (λ _. inl refl, λ _. refl)
wanted_iff name (i ∷ ifs) exact =
    let (fwd, back) = match_any-IsListed name exact (i ∷ ifs) in
    (λ h. inr (fwd h), λ h. elim h [ inl e ↦ absurd (cc) | inr l ↦ back l ])

asked_iff :
    (n : Bool) (w : Wish) (name : List ℕ)
    → (xor (match_if_list name (negsuc 0) w.user_ifs w.search_exact) n ≡ true) ↔ AsksFor n w name
asked_iff n w name =
    go n (match_if_list name (negsuc 0) w.user_ifs w.search_exact)
      (wanted_iff name w.user_ifs w.search_exact)
  where
    go :
        (n m : Bool)
        → (m ≡ true) ↔ ((w.user_ifs ≡ []) ⊎ IsListed w.search_exact name w.user_ifs)
        → (xor m n ≡ true) ↔ AsksFor n w name
    go false true (fwd, back) = (λ _. fwd refl, λ _. refl)
    go false false (fwd, back) = (fwd, back)
    go true true (fwd, back) = (
      λ h. absurd (ground (arith, h)),
      λ (a, b). absurd (elim (fwd refl) [ inl e ↦ a e | inr l ↦ b l ]),
    )
    go true false (fwd, back) = (
      λ _. (λ e. absurd (ground (arith, back (inl e))), λ l. absurd (ground (arith, back (inr l)))),
      λ _. refl,
    )

pub is_wanted-Fits :
    (f : SockFamily) (w : Wish) (i : NetInterface) → (is_wanted f w i ≡ true) ↔ Fits f w i
unfolding is_wanted
is_wanted-Fits f w i =
    let (fwd, back) = has_family-HasFamily f i.addr in
    let (to_asked, from_asked) = asked_iff w.search_not w i.name in
    (λ h. let (a, b) = &&-both _ _ h in (fwd a, to_asked b), λ (h, k). rw (back h) (from_asked k))
