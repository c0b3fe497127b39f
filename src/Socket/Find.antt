-- ===== src/Socket/Find.antt =====
-- The search for network interfaces in src/unet/socket.cc. The interfaces that getifaddrs lists, the
-- environment and the name service come in as arguments. A string is the list of its character codes,
-- without the 0 that ends it; the bytes of an IPv6 address are a list of 16.
mod Fits
pub mod Selected
mod Tests
use Prim.Native.Nat.{bit_and}
use nccl_exts.Prelude.{
  ℕ, zero, suc, ◌+◌, ◌-◌, ◌%◌, ◌^◌, Bool, true, false, not, ◌&&◌, ◌||◌, List, [], ◌∷◌, ◌++◌, Option,
  none, some, ltb, ◌==◌, if◌then◌else◌, length, take, drop, replicate,
}
use nccl_exts.Prelude.Int.{ℤ, pos, negsuc}
use nccl_exts.Prelude.Nccl.{NcclResult, Result, ok, err, invalid_argument}
use nccl_exts.Interfaces.{NetIf, match_if_list, equal_up_to, parse_string_list}

-- An address by its family: sin_addr, or sin6_addr with sin6_scope_id; `other_addr` is of another
-- family.
pub data IfAddr : Type 0 where
  addr4 : ℕ → IfAddr
  addr6 : List ℕ → ℕ → IfAddr
  other_addr : IfAddr

-- struct ifaddrs; the address may be a null pointer.
pub record NetInterface : Type 0 where
  pub name : List ℕ
  pub addr : Option IfAddr
  pub mask : IfAddr

-- The families that a search may be limited to.
pub data SockFamily : Type 0 where
  any_family af_inet af_inet6 : SockFamily

-- strcmp(a, b) == 0.
abbrev pub same_text : List ℕ → List ℕ → Bool
same_text a b = equal_up_to (suc (length a)) a b

-- "AF_INET".
abbrev pub text_af_inet : List ℕ
text_af_inet = b'A' ∷ b'F' ∷ b'_' ∷ b'I' ∷ b'N' ∷ b'E' ∷ b'T' ∷ []

-- envSocketFamily.
unfoldable pub env_socket_family : Option (List ℕ) → SockFamily
env_socket_family none = any_family
env_socket_family (some env) =
    if same_text env text_af_inet
    then af_inet
    else if same_text env (text_af_inet ++ (b'6' ∷ []))
    then af_inet6
    else any_family

-- IN6_IS_ADDR_LOOPBACK.
abbrev pub is_loopback : List ℕ → Bool
is_loopback bytes = same_text bytes (replicate 15 0 ++ (1 ∷ []))

-- The tests of findInterfaces on the address.
unfoldable pub has_family : SockFamily → Option IfAddr → Bool
has_family f none = false
has_family f (some other_addr) = false
has_family any_family (some (addr4 a)) = true
has_family af_inet (some (addr4 a)) = true
has_family af_inet6 (some (addr4 a)) = false
has_family any_family (some (addr6 bytes scope)) = not (is_loopback bytes)
has_family af_inet (some (addr6 bytes scope)) = false
has_family af_inet6 (some (addr6 bytes scope)) = not (is_loopback bytes)

abbrev pub xor : Bool → Bool → Bool
xor true b = not b
xor false b = b

-- What the user has asked for: the list, and the signs in front of it.
pub record Wish : Type 0 where
  pub user_ifs : List NetIf
  pub search_not : Bool
  pub search_exact : Bool

-- An interface that is to be saved.
unfoldable pub is_wanted : SockFamily → Wish → NetInterface → Bool
is_wanted f w i =
    has_family f i.addr
    && xor (match_if_list i.name (negsuc 0) w.user_ifs w.search_exact) w.search_not

-- An entry of `names` and `addrs`.
pub record FoundIf : Type 0 where
  pub name : List ℕ
  pub addr : Option IfAddr

-- The name has been saved already.
unfoldable pub is_saved : List ℕ → List FoundIf → Bool
is_saved name [] = false
is_saved name (f ∷ found) = same_text name f.name || is_saved name found

-- The body of the loop. The names of the system are shorter than maxIfNameSize.
unfoldable pub save_if : SockFamily → Wish → NetInterface → List FoundIf → List FoundIf
save_if f w i found =
    if is_wanted f w i && not (is_saved i.name found)
    then found ++ (record { name = i.name; addr = i.addr } ∷ [])
    else found

-- The loop of findInterfaces.
unfoldable pub find_from : ℕ → SockFamily → Wish → List NetInterface → List FoundIf → List FoundIf
find_from max_ifs f w [] found = found
find_from max_ifs f w (i ∷ interfaces) found =
    let rest = find_from max_ifs f w interfaces (save_if f w i found) in
    if ltb (length found) max_ifs then rest else found

-- Whether the list begins with the character, and what is behind it.
abbrev pub strip_sign : ℕ → List ℕ → Bool × List ℕ
strip_sign sign [] = (false, [])
strip_sign sign (c ∷ cs) = if c == sign then (true, cs) else (false, c ∷ cs)

abbrev pub wish_of : (List ℕ → ℤ) → List ℕ → Wish
wish_of atoi text =
    let (search_not, rest) = strip_sign b'^' text in
    let (search_exact, items) = strip_sign b'=' rest in
    record {
      user_ifs = parse_string_list atoi 16 (some items);
      search_not = search_not;
      search_exact = search_exact;
    }

-- findInterfaces: the names and addresses that were found.
unfoldable pub find_interfaces :
    (List ℕ → ℤ) → List ℕ → SockFamily → ℕ → List NetInterface → List FoundIf
find_interfaces atoi prefix_list f max_ifs interfaces =
    find_from max_ifs f (wish_of atoi prefix_list) interfaces []

-- The masked bytes are the same.
unfoldable pub same_masked : List ℕ → List ℕ → List ℕ → Bool
same_masked (a ∷ bs) (m ∷ ms) (r ∷ rs) = (bit_and a m == bit_and r m) && same_masked bs ms rs
same_masked _ _ _ = true

-- union ncclSocketAddress.
pub data SockAddr : Type 0 where
  sin : ℕ → ℕ → SockAddr
  sin6 : List ℕ → ℕ → ℕ → SockAddr
  other_sock : SockAddr

-- matchSubnet by the addresses and the mask.
unfoldable pub match_subnet : IfAddr → IfAddr → SockAddr → Bool
match_subnet (addr4 a) (addr4 m) (sin r port) = bit_and a m == bit_and r m
match_subnet (addr6 a scope) (addr6 m s) (sin6 r port remote_scope) =
    same_masked a m r && (scope == remote_scope)
match_subnet _ _ _ = false

-- ncclFindInterfaceMatchSubnet: its loop stops at the first that is found.
unfoldable pub find_match_subnet : SockAddr → List NetInterface → List FoundIf
find_match_subnet remote [] = []
find_match_subnet remote (i ∷ interfaces) =
    let rest = find_match_subnet remote interfaces in
    elim i.addr [
      | none ↦ rest
      | some a ↦
          if match_subnet a i.mask remote
          then record { name = i.name; addr = some a } ∷ []
          else rest
    ]

-- What the name service and the conversions of the C library answer.
pub record Names : Type 0 where
  pub atoi : List ℕ → ℤ
  pub getaddrinfo : List ℕ → Option IfAddr
  pub inet_pton : List ℕ → Option (List ℕ)
  pub if_nametoindex : List ℕ → ℕ

-- A port as htons takes it.
abbrev pub to_port : ℤ → ℕ
to_port (pos n) = n % 2 ^ 16
to_port (negsuc n) = (2 ^ 16 - 1 - n % 2 ^ 16) % 2 ^ 16

-- The loop over `[IPv6]:port` from character `i` on: where `]` stands, or the end, and the last `%` in
-- front of it.
unfoldable pub scan : List ℕ → ℕ → Option ℕ → ℕ × Option ℕ
scan [] i j = (i, j)
scan (c ∷ cs) i j =
    let seen = if c == b'%' then some i else j in
    let rest = scan cs (suc i) seen in if c == b']' then (i, seen) else rest

module _ (n : Names) where
  -- The first address of the name service, with the port of the item.
  unfoldable pub named_addr : NetIf → Result SockAddr
  named_addr item = elim (n.getaddrinfo item.prefix) [
    | none ↦ err invalid_argument
    | some (addr4 a) ↦ ok (sin a (to_port item.port))
    | some (addr6 bytes scope) ↦ ok (sin6 bytes 0 (to_port item.port))
    | some other_addr ↦ err invalid_argument
  ]

  -- The bytes that inet_pton writes. When it fails, they stay what they were, `before`.
  abbrev pub address : List ℕ → List ℕ → List ℕ
  address before ip = elim (n.inet_pton ip) [ none ↦ before | some b ↦ b ]

  -- `[IPv6]:port`.
  unfoldable pub literal_addr : List ℕ → List ℕ → Result SockAddr
  literal_addr before text =
      let (i, j) = scan (drop 1 text) 1 none in
      let port = to_port (n.atoi (drop (i + 2) text)) in
      if i == length text then err invalid_argument else elim j [
        | none ↦ ok (sin6 (address before (take (i - 1) (drop 1 text))) 0 port)
        | some k ↦ ok (
            sin6 (address before (take (k - 1) (drop 1 text)))
              (n.if_nametoindex (take (i - k - 1) (drop (k + 1) text))) port)
      ]

  -- ncclSocketGetAddrFromString.
  unfoldable pub get_addr_from_string : List ℕ → Option (List ℕ) → Result SockAddr
  get_addr_from_string before none = err invalid_argument
  get_addr_from_string before (some []) = err invalid_argument
  get_addr_from_string before (some (c ∷ cs)) =
      if not (ltb 1 (length (c ∷ cs)))
      then err invalid_argument
      else if c == b'['
      then literal_addr before (c ∷ cs)
      else elim (parse_string_list n.atoi 1 (some (c ∷ cs))) [
        | [] ↦ err invalid_argument
        | item ∷ items ↦ named_addr item
      ]

-- `s && strlen(s) > 1`.
abbrev pub long_text : Option (List ℕ) → Option (List ℕ)
long_text none = none
long_text (some s) = if ltb 1 (length s) then some s else none

-- "eth", "docker" and "lo", and "^docker,lo".
abbrev pub text_eth : List ℕ
text_eth = b'e' ∷ b't' ∷ b'h' ∷ []

abbrev pub text_docker : List ℕ
text_docker = b'd' ∷ b'o' ∷ b'c' ∷ b'k' ∷ b'e' ∷ b'r' ∷ []

abbrev pub text_lo : List ℕ
text_lo = b'l' ∷ b'o' ∷ []

abbrev pub text_others : List ℕ
text_others = b'^' ∷ (text_docker ++ (b',' ∷ text_lo))

-- `if (nIfs == 0) nIfs = ...`.
abbrev pub or_else : List FoundIf → List FoundIf → List FoundIf
or_else [] other = other
or_else (f ∷ found) other = f ∷ found

-- The interface in the subnet of NCCL_COMM_ID. When the address cannot be read, it is what the
-- uninitialised variable held, `garbage`.
unfoldable pub find_by_comm_id :
    Names → SockAddr → List ℕ → Option (List ℕ) → List NetInterface → List FoundIf
find_by_comm_id n garbage before none interfaces = []
find_by_comm_id n garbage before (some comm_id) interfaces =
    find_match_subnet
      (elim (get_addr_from_string n before (some comm_id)) [ ok a ↦ a | err e ↦ garbage ])
      interfaces

-- ncclFindInterfaces by NCCL_SOCKET_FAMILY, NCCL_SOCKET_IFNAME and NCCL_COMM_ID.
unfoldable pub find_all :
    Names
    → SockAddr
    → List ℕ
    → Option (List ℕ)
    → Option (List ℕ)
    → Option (List ℕ)
    → ℕ
    → List NetInterface
    → List FoundIf
find_all n garbage before family ifname comm_id max_ifs interfaces =
    let find = λ (prefix_list : List ℕ).
      find_interfaces n.atoi prefix_list (env_socket_family family) max_ifs interfaces in
    elim (long_text ifname) [
      | some env ↦ find env
      | none ↦ or_else (find text_eth) (
          or_else (find_by_comm_id n garbage before (long_text comm_id) interfaces)
            (or_else (find text_others) (or_else (find text_docker) (find text_lo))))
    ]
