-- ===== src/Ib/Gid/Tests.antt =====
-- Runs of the choice of a GID at concrete inputs.
use nccl_exts.Prelude.{ℕ, zero, suc, ◌≡◌, ◌↔◌, refl, arith, true, List, [], ◌∷◌, Option, none, some}
use nccl_exts.Prelude.Int.{negsuc}
use nccl_exts.Prelude.Nccl.{ok}
use nccl_exts.Ib.Gid.{
  Gid, inet, inet6, Port, Wish, match_gid_addr_prefix, get_gid_index, choose_from, update_gid_index,
  update_by, get_gid_addr_family, valid_gid, configured_gid, link_local_gid, by_version,
  roce_version,
}
use nccl_exts.Interfaces.{equal_up_to}
use nccl_exts.Ib.Gid.Prefix.{SamePrefix, addr_words, match_gid_addr_prefix-SamePrefix}
use nccl_exts.Ib.Gid.Choice.{IsChosen, get_gid_index-IsChosen}

-- fe80::1, and ::ffff:10.0.0.7.
abbrev link_local : Gid
link_local = record { word0 = 0xfe80_0000; word1 = 0; word2 = 0; word3 = 1 }

abbrev mapped : Gid
mapped = record { word0 = 0; word1 = 0; word2 = 0xffff; word3 = 0x0a00_0007 }

abbrev roce_v2_text : List ℕ
roce_v2_text = 82 ∷ 111 ∷ 67 ∷ 69 ∷ 32 ∷ 118 ∷ 50 ∷ []

abbrev query : ℕ → Option Gid
query zero = some link_local
query (suc zero) = some mapped
query (suc (suc zero)) = some link_local
query _ = none

abbrev port : Port
port = record { query_gid = query; type_text = λ _. some roce_v2_text; old_version = λ _. 0 }

abbrev wish : Wish
wish = record { family = inet; prefix = 0x0a00_0000 ∷ []; prefixlen = 24; roce_ver = 2 }

chosen : get_gid_index port wish (negsuc 0) 3 ≡ ok 1
unfolding get_gid_index choose_from update_gid_index update_by get_gid_addr_family
    match_gid_addr_prefix valid_gid configured_gid link_local_gid by_version roce_version
    equal_up_to
chosen = refl

get_gid_index-IsChosen_example : IsChosen port wish 3 (get_gid_index port wish (negsuc 0) 3)
get_gid_index-IsChosen_example = get_gid_index-IsChosen port wish 0 3 (omega arith)

match_gid_addr_prefix-SamePrefix_example :
    (match_gid_addr_prefix inet6 (0xfe80_0000 ∷ 0 ∷ 0 ∷ 0 ∷ []) 70 link_local ≡ true)
    ↔ SamePrefix 70 (0xfe80_0000 ∷ 0 ∷ 0 ∷ 0 ∷ []) (addr_words inet6 link_local)
match_gid_addr_prefix-SamePrefix_example =
    match_gid_addr_prefix-SamePrefix inet6 (0xfe80_0000 ∷ 0 ∷ 0 ∷ 0 ∷ []) 70 link_local
      (refl, (omega arith, (omega arith, (omega arith, (omega arith, tt)))))
      (refl, (omega arith, (omega arith, (omega arith, (omega arith, tt))))) (omega arith)
