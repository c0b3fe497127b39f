-- ===== src/Ib/Device/Passes.antt =====
-- What the loops of ncclIbInit of src/unet/unet_ib.cc keep, and what it returns with.
use nccl_exts.Prelude.{
  ℕ, zero, suc, ◌≡◌, inl, inr, refl, Bool, true, false, not, ◌&&◌, List, [], ◌∷◌, Option, none,
  some, arith, Bool-cases, ◌==◌, leb, if◌then◌else◌, length, All,
}
use nccl_exts.Prelude.Nccl.{
  Result, ok, err, internal_error, ◌>>◌, fail_if, modify, Ends-both, Ends-chain, Keeps, Keeps-bind,
  Ends, pure,
}
use nccl_exts.Prelude.Int.{ℤ, pos, ltb_ℤ}
use nccl_exts.Ib.Device.{PortAttr, Dev, Merged, put_dev}
use nccl_exts.Ib.Device.Discovery.{
  Config, Host, Filter, DeviceAttr, Devs, add_dev, new_dev, is_usable, is_wanted, register_port,
  visit_port, ports_from, with_device, visit_device, devices_from, check_mix, build_ib_list,
  with_list, is_mixed, first_size, reset, user_filter, finish, set_rank, relaxed_ordering_capable,
  init,
}
use nccl_exts.Ib.Device.Merging.{IsTable, add_dev-IsTable}

-- A property of the tables that holds on after each device added holds after the loops.
module _ {ℓ} (P : Devs → Type ℓ) (config : Config) (filter : Filter) (host : Host) (merges : Bool)
    (keeps : (d : ℕ) (attr : DeviceAttr) (port : ℕ) (a : PortAttr) (s : Devs)
      → is_wanted filter (host.name d) port ≡ true
      → is_usable a ≡ true
      → P s
      → P (add_dev merges (new_dev config filter host merges d attr port a s.devs) s)) where
  register_port-Keeps :
      (d : ℕ) (attr : DeviceAttr) (port : ℕ) (a : PortAttr) (n : ℕ)
      → is_wanted filter (host.name d) port ≡ true
      → is_usable a ≡ true
      → Keeps P (register_port config filter host merges d attr port a n)
  unfolding register_port
  register_port-Keeps d attr port a n w u s p =
      elim (Bool-cases
        (not (host.create_thread (length s.devs) && host.detach_thread (length s.devs)))) [
          | inl t ↦ rw t p
          | inr t ↦ rw t (keeps d attr port a s w u p)
        ]

  visit_port-Keeps :
      (d : ℕ) (attr : DeviceAttr) (port : ℕ) (a : Option PortAttr) (n : ℕ)
      → is_wanted filter (host.name d) port ≡ true
      → Keeps P (visit_port config filter host merges d attr port a n)
  unfolding visit_port
  visit_port-Keeps d attr port none n w s p = p
  visit_port-Keeps d attr port (some a) n w s p = elim (Bool-cases (is_usable a)) [
    | inl t ↦ rw t (register_port-Keeps d attr port a n w t s p)
    | inr t ↦ rw t p
  ]

  ports_from-Keeps :
      (d : ℕ) (attr : DeviceAttr) (left port n : ℕ)
      → Keeps P (ports_from config filter host merges d attr left port n)
  unfolding ports_from
  ports_from-Keeps d attr zero port n = λ s p. p
  ports_from-Keeps d attr (suc left) port n =
      Keeps-bind P
        (if is_wanted filter (host.name d) port
          then visit_port config filter host merges d attr port (host.query_port d port) n
          else pure n)
        (ports_from config filter host merges d attr left (suc port))
        (λ s p. elim (Bool-cases (is_wanted filter (host.name d) port)) [
          | inl t ↦ rw t (visit_port-Keeps d attr port (host.query_port d port) n t s p)
          | inr t ↦ rw t p
        ])
        (λ n'. ports_from-Keeps d attr left (suc port) n')

  with_device-Keeps :
      (d : ℕ) (a : Option DeviceAttr) → Keeps P (with_device config filter host merges d a)
  unfolding with_device
  with_device-Keeps d none = λ s p. p
  with_device-Keeps d (some attr) =
      Keeps-bind P (ports_from config filter host merges d attr attr.phys_port_cnt 1 0)
        (λ n. fail_if ((n == 0) && not (host.closes d)) internal_error)
        (ports_from-Keeps d attr attr.phys_port_cnt 1 0) (λ n s p. p)

  visit_device-Keeps : (d : ℕ) → Keeps P (visit_device config filter host merges d)
  unfolding visit_device
  visit_device-Keeps d s p = elim (Bool-cases (host.opens d)) [
    | inl t ↦ rw t (with_device-Keeps d (host.query_device d) s p)
    | inr t ↦ rw t p
  ]

  pub devices_from-Keeps : (left d : ℕ) → Keeps P (devices_from config filter host merges left d)
  unfolding devices_from
  devices_from-Keeps zero d s p = p
  devices_from-Keeps (suc left) d s p = elim (Bool-cases (leb 32 (length s.devs))) [
    | inl t ↦ rw t p
    | inr t ↦ rw t (
        Keeps-bind P (visit_device config filter host merges d)
          (λ done. devices_from config filter host merges left (suc d)) (visit_device-Keeps d)
          (λ done. devices_from-Keeps left (suc d)) s p)
  ]

-- All merged devices have n devices.
abbrev pub IsUniform : ℕ → Devs → Type 0
IsUniform n s = All (λ (m : Merged). length m.devs ≡ n) s.merged

is_mixed-IsUniform :
    (n : ℕ) (merged : List Merged)
    → is_mixed n merged ≡ false
    → All (λ (m : Merged). length m.devs ≡ n) merged
unfolding is_mixed
is_mixed-IsUniform n [] h = tt
is_mixed-IsUniform n (m ∷ merged) h = elim (Bool-cases (length m.devs == n)) [
  | inl t ↦ (ground arith, is_mixed-IsUniform n merged (rw t at h))
  | inr t ↦ let clash : true ≡ false = rw t at h in absurd (ground arith)
]

put_dev-singles :
    (dev : Dev) (k : ℕ) (merged : List Merged)
    → All (λ (m : Merged). length m.devs ≡ 1) merged
    → All (λ (m : Merged). length m.devs ≡ 1) (put_dev (length merged) dev k merged)
unfolding put_dev
put_dev-singles dev k [] h = (refl, tt)
put_dev-singles dev k (m ∷ merged) h = (h.0, put_dev-singles dev k merged h.1)

add_dev-singles : (dev : Dev) (s : Devs) → IsUniform 1 s → IsUniform 1 (add_dev false dev s)
unfolding add_dev
add_dev-singles dev s h = put_dev-singles dev (length s.devs) s.merged h

-- The tables are well formed, and the merged devices have the same size.
abbrev pub IsSettled : Devs → Type 0
IsSettled s = IsTable s × ((n : ℕ) × IsUniform n s)

reset-IsTable : (s : Devs) → IsTable (reset s)
reset-IsTable s = record { each_merged = tt; each_once = λ k. ground arith }

check_mix-Ends :
    (config : Config) (filter : Filter) (again : Host) (count : ℕ) (out : Result (Unit {0}) × Devs)
    → IsTable out.1
    → (config.merge_nics ≡ false → IsUniform 1 out.1)
    → Ends (λ _. IsSettled) (λ _. IsTable) (check_mix config filter again count out)
unfolding check_mix
check_mix-Ends config filter again count (err e, s) h u = h
check_mix-Ends config filter again count (ok done, s) h u =
    let table =
      devices_from-Keeps IsTable config filter again false
        (λ d attr port a t w u. add_dev-IsTable false _ t) count 0 (reset s) (reset-IsTable s) in
    let singles =
      devices_from-Keeps (IsUniform 1) config filter again false
        (λ d attr port a t w u. add_dev-singles _ t) count 0 (reset s) tt in
    elim (Bool-cases config.merge_nics) [
      | inl t ↦ elim (Bool-cases (is_mixed (first_size s.merged) s.merged)) [
        | inl mixed ↦
            simp (t, mixed)
              (Ends-both (λ _. IsSettled) (λ _. IsTable)
                (devices_from config filter again false count 0 (reset s))
                (λ a. (table, (1, singles))) (λ e. table))
        | inr same ↦ simp (t, same) (h, (first_size s.merged, is_mixed-IsUniform _ s.merged same))
      ]
      | inr f ↦ simp f (h, (1, u f))
    ]

pass-singles :
    (config : Config) (filter : Filter) (host : Host) (merges : Bool) (count : ℕ) (s : Devs)
    → merges ≡ false
    → IsUniform 1 (devices_from config filter host merges count 0 (reset s)).1
pass-singles config filter host true count s e = absurd (ground arith)
pass-singles config filter host false count s e =
    devices_from-Keeps (IsUniform 1) config filter host false
      (λ d attr port a t w u. add_dev-singles _ t) count 0 (reset s) tt

build_ib_list-Ends :
    (config : Config) (host again : Host) (count : ℕ) (s : Devs)
    → Ends (λ _. IsSettled) (λ _. IsTable) (build_ib_list config host again count (reset s))
unfolding build_ib_list
build_ib_list-Ends config host again count s =
    let filter = user_filter config in
    check_mix-Ends config filter again count
      (devices_from config filter host config.merge_nics count 0 (reset s))
      (devices_from-Keeps IsTable config filter host config.merge_nics
        (λ d attr port a t w u. add_dev-IsTable config.merge_nics _ t) count 0 (reset s)
        (reset-IsTable s))
      (λ f. pass-singles config filter host config.merge_nics count s f)

-- The tables do not depend on the other variables.
same-IsSettled :
    (s : Devs) (r : Bool) (k : ℤ)
    → IsSettled s
    → IsSettled (record s { relaxed_ordering_enabled = r; rank = k })
same-IsSettled s r k h = (record { each_merged = h.0.each_merged; each_once = h.0.each_once }, h.1)

set_rank-IsSettled : (rank : Option ℤ) (s : Devs) → IsSettled s → IsSettled (set_rank rank s)
unfolding set_rank
set_rank-IsSettled none s h = h
set_rank-IsSettled (some rank) s h = elim (Bool-cases (ltb_ℤ s.rank (pos 0))) [
  | inl t ↦ rw t (same-IsSettled s s.relaxed_ordering_enabled rank h)
  | inr t ↦ rw t h
]

finish-IsSettled : (config : Config) (s : Devs) → IsSettled s → IsSettled (finish config s)
unfolding finish
finish-IsSettled config s h =
    set_rank-IsSettled config.rank_env _ (elim (Bool-cases (length s.devs == 0)) [
      | inl t ↦ rw t h
      | inr t ↦ rw t (same-IsSettled s (relaxed_ordering_capable config) s.rank h)
    ])

with_list-Ends :
    (config : Config) (list : Option ℕ) (freed : Bool) (host again : Host) (s : Devs)
    → Ends (λ _. IsSettled) (λ _. IsTable) (with_list config list freed host again (reset s))
unfolding with_list
with_list-Ends config none freed host again s = reset-IsTable s
with_list-Ends config (some count) freed host again s =
    Ends-chain (λ _. IsSettled) (λ _. IsSettled) (λ _. IsTable)
      (build_ib_list config host again count)
      (λ _. fail_if (not (count == 0) && not freed) internal_error >> modify (finish config))
      (reset s) (build_ib_list-Ends config host again count s)
      (λ a t h. elim (Bool-cases (not (count == 0) && not freed)) [
        | inl b ↦ rw b (h.0)
        | inr b ↦ rw b (finish-IsSettled config t h)
      ])

-- A first call of ncclIbInit, from a table that is in order, leaves one in order: each device is
-- in exactly one merged device, which has one or two devices that are alike and the sum of their
-- speeds. When it succeeds, all merged devices also have the same number of devices, since a mix
-- makes it build the list again without merging.
pub init-IsSettled :
    (config : Config) (has_interface : Bool) (list : Option ℕ) (freed : Bool) (host again : Host)
    (s : Devs)
    → s.is_known ≡ false
    → IsTable s
    → Ends (λ _. IsSettled) (λ _. IsTable) (init config has_interface list freed host again s)
unfolding init
init-IsSettled config has_interface list freed host again s fresh h =
    elim (Bool-cases config.disabled) [
      | inl t ↦ rw t h
      | inr t ↦ elim (Bool-cases has_interface) [
        | inr f ↦ simp (t, fresh, f) (reset-IsTable s)
        | inl i ↦ simp (t, fresh, i) (with_list-Ends config list freed host again s)
      ]
    ]
