-- ===== src/Socket/Find/Tests.antt =====
-- A run of the search for interfaces in src/unet/socket.cc at a concrete input.
use nccl_exts.Prelude.{List, [], ◌∷◌, some, ◌++◌}
use nccl_exts.Prelude.Int.{pos}
use nccl_exts.Socket.Find.{
  addr4, addr6, other_addr, NetInterface, any_family, text_eth, text_lo, text_others, wish_of,
  find_interfaces,
}
use nccl_exts.Socket.Find.Selected.{IsSelection, find_interfaces-IsSelection}

-- "lo", and "eth0" with two addresses.
abbrev interfaces : List NetInterface
interfaces =
    record { name = text_lo; addr = some (addr4 0x7f00_0001); mask = other_addr }
    ∷ record { name = text_eth ++ (b'0' ∷ []); addr = some (addr4 0x0a00_0007); mask = other_addr }
    ∷ record { name = text_eth ++ (b'0' ∷ []); addr = some (addr6 (1 ∷ []) 0); mask = other_addr }
    ∷ []

find_interfaces-IsSelection_example :
    IsSelection 2 any_family
      (wish_of (λ text. pos 0) text_others)
      interfaces
      (find_interfaces (λ text. pos 0) text_others any_family 2 interfaces)
find_interfaces-IsSelection_example =
    find_interfaces-IsSelection (λ text. pos 0) text_others any_family 2 interfaces
