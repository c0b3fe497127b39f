-- ===== src/Ib/Gid.antt =====
-- The choice of a port's GID for RoCE in src/unet/unet_ib.cc: getGidAddrFamily,
-- matchGidAddrPrefix, validGid, ncclIbRoceGetVersionNum, ncclIbUpdateGidIndex and
-- ncclIbGetGidIndex. A GID is an IPv6 address of four 32-bit words; a word stands here for its value
-- in the host's order (ntohl of the field), so that htonl of a constant is the constant.
pub mod Prefix
pub mod Choice
mod Tests
use nccl_exts.Prelude.{
  ℕ, zero, suc, ◌+◌, ◌-◌, ◌/◌, ◌^◌, Bool, true, false, not, ◌&&◌, ◌||◌, List, [], ◌∷◌, Option, none,
  some, ◌==◌, leb, ltb, if◌then◌else◌, length, get_or, take,
}
use nccl_exts.Prelude.Int.{ℤ, pos, negsuc}
use nccl_exts.Prelude.Nccl.{NcclResult, Result, ok, err, success, in_progress, system_error}
use nccl_exts.Interfaces.{equal_up_to}

-- union ibv_gid.
pub record Gid : Type 0 where
  pub word0 : ℕ
  pub word1 : ℕ
  pub word2 : ℕ
  pub word3 : ℕ

abbrev pub words : Gid → List ℕ
words g = g.word0 ∷ g.word1 ∷ g.word2 ∷ g.word3 ∷ []

-- AF_INET and AF_INET6.
pub data Family : Type 0 where
  inet inet6 : Family

abbrev pub same_family : Family → Family → Bool
same_family inet inet = true
same_family inet6 inet6 = true
same_family _ _ = false

-- envIbAddrFamily.
unfoldable pub env_ib_addr_family : Option (List ℕ) → Family
env_ib_addr_family none = inet
env_ib_addr_family (some env) =
    let af_inet6 = 65 ∷ 70 ∷ 95 ∷ 73 ∷ 78 ∷ 69 ∷ 84 ∷ 54 ∷ [] in
    if equal_up_to (suc (length env)) env af_inet6 then inet6 else inet

-- getGidAddrFamily: an IPv4 address mapped into IPv6, or such a multicast address.
unfoldable pub get_gid_addr_family : Gid → Family
get_gid_addr_family g =
    let is_mapped = (g.word0 == 0) && ((g.word1 == 0) && (g.word2 == 0xffff)) in
    let is_multicast = (g.word0 == 0xff0e_0000) && ((g.word1 == 0) && (g.word2 == 0xffff)) in
    if is_mapped || is_multicast then inet else inet6

-- The word masked with NETMASK(bits), as a number: its first `bits` bits, for 0 < bits ≤ 32.
abbrev pub netmask : ℕ → ℕ → ℕ
netmask bits word = word / 2 ^ (32 - bits)

-- The loop of matchGidAddrPrefix for IPv6 on the words that are left. The result is what is left of
-- prefixlen, 0 for a match.
unfoldable pub match_words : ℕ → List ℕ → List ℕ → ℕ
match_words zero bs ws = 0
match_words (suc n) (b ∷ bs) (w ∷ ws) =
    let rest = match_words (suc n - 32) bs ws in
    if leb 32 (suc n)
    then if b == w then rest else suc n
    else if netmask (suc n) b == netmask (suc n) w
    then 0
    else suc n
match_words (suc n) bs ws = suc n

-- matchGidAddrPrefix. `prefix` is the address as words: one for IPv4, four for IPv6. A prefix length
-- of 0 does not read it, so that it can be empty for a null pointer.
unfoldable pub match_gid_addr_prefix : Family → List ℕ → ℕ → Gid → Bool
match_gid_addr_prefix inet prefix zero g = true
match_gid_addr_prefix inet prefix (suc n) g =
    netmask (suc n) (get_or prefix 0 0) == netmask (suc n) g.word3
match_gid_addr_prefix inet6 prefix n g = match_words n prefix (words g) == 0

-- configuredGid. An `or` of words is 0 exactly when all of them are.
unfoldable pub configured_gid : Gid → Bool
configured_gid g =
    let no_trailer = (g.word1 == 0) && ((g.word2 == 0) && (g.word3 == 0)) in
    not (((g.word0 == 0) && no_trailer) || ((g.word0 == 0xfe80_0000) && no_trailer))

unfoldable pub link_local_gid : Gid → Bool
link_local_gid g = (g.word0 == 0xfe80_0000) && (g.word1 == 0)

unfoldable pub valid_gid : Gid → Bool
valid_gid g = configured_gid g && not (link_local_gid g)

-- ncclIbRoceGetVersionNum by what was read of the type's file, `none` when it could not be opened or
-- read, and by the value that the caller's variable has: a text that names no version leaves it.
-- `strncmp` with the length of the name asks for a text that begins with it.
unfoldable pub roce_version : Option (List ℕ) → ℕ → Result ℕ
roce_version none version = err system_error
roce_version (some text) version =
    let ib_roce_v1 = 73 ∷ 66 ∷ 47 ∷ 82 ∷ 111 ∷ 67 ∷ 69 ∷ 32 ∷ 118 ∷ 49 ∷ [] in
    let roce_v1 = 82 ∷ 111 ∷ 67 ∷ 69 ∷ 32 ∷ 118 ∷ 49 ∷ [] in
    let roce_v2 = 82 ∷ 111 ∷ 67 ∷ 69 ∷ 32 ∷ 118 ∷ 50 ∷ [] in
    let is_v1 =
      equal_up_to (length ib_roce_v1) text ib_roce_v1
      || equal_up_to (length roce_v1) text roce_v1 in
    ok (if is_v1 then 1 else if equal_up_to (length roce_v2) text roce_v2 then 2 else version)

-- What a port answers for an index: wrap_ibv_query_gid, the text of the GID's type, and the value of the
-- variable for its version before it is set.
pub record Port : Type 0 where
  pub query_gid : ℕ → Option Gid
  pub type_text : ℕ → Option (List ℕ)
  pub old_version : ℕ → ℕ

-- What the user asks for: family, prefix with its length, and version.
pub record Wish : Type 0 where
  pub family : Family
  pub prefix : List ℕ
  pub prefixlen : ℕ
  pub roce_ver : ℕ

abbrev pub in_subnet : Wish → Gid → Bool
in_subnet w g = match_gid_addr_prefix w.family w.prefix w.prefixlen g

-- The last test of ncclIbUpdateGidIndex, by the versions of the two GIDs.
unfoldable pub by_version : Wish → ℕ → Gid → ℕ → Result ℕ → Result ℕ → Result ℕ
by_version w index gid candidate (err e) v = err e
by_version w index gid candidate (ok have) (err e) = err e
by_version w index gid candidate (ok have) (ok want) =
    if (not (have == want) || not (valid_gid gid)) && (want == w.roce_ver)
    then ok candidate
    else ok index

unfoldable pub update_by : Port → Wish → ℕ → ℕ → Option Gid → Option Gid → Result ℕ
update_by p w index candidate none g = err system_error
update_by p w index candidate (some gid) none = err system_error
update_by p w index candidate (some gid) (some g) =
    let family = get_gid_addr_family g in
    let differs = not (same_family family (get_gid_addr_family gid)) in
    let versions =
      by_version w index gid candidate (roce_version (p.type_text index) (p.old_version index))
        (roce_version (p.type_text candidate) (p.old_version candidate)) in
    if differs && (same_family family w.family && in_subnet w g)
    then ok candidate
    else if not (same_family family w.family) || (not (valid_gid g) || not (in_subnet w g))
    then ok index
    else versions

-- ncclIbUpdateGidIndex: the index after it.
unfoldable pub update_gid_index : Port → Wish → ℕ → ℕ → Result ℕ
update_gid_index p w candidate index =
    update_by p w index candidate (p.query_gid index) (p.query_gid candidate)

-- The loop of ncclIbGetGidIndex over `left` indices from `next` on.
unfoldable pub choose_from : Port → Wish → ℕ → ℕ → Result ℕ → Result ℕ
choose_from p w zero next r = r
choose_from p w (suc left) next (err e) = err e
choose_from p w (suc left) next (ok index) =
    choose_from p w left (suc next) (update_gid_index p w next index)

-- ncclIbGetGidIndex. `param` is IB_GID_INDEX; the prefix of the wish is envIbAddrRange's.
unfoldable pub get_gid_index : Port → Wish → ℤ → ℕ → Result ℕ
get_gid_index p w (pos index) gid_tbl_len = ok index
get_gid_index p w (negsuc n) gid_tbl_len = choose_from p w (gid_tbl_len - 1) 1 (ok 0)
