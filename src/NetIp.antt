-- ===== src/NetIp.antt =====
-- What service/wireguard.go uses of Go's `net/netip`: addresses as numbers of a family, and prefixes.
-- Reading and printing them is an argument of the functions that do.
pub mod Laws
use Prim.Native.Nat.{◌^◌, min}
use s_ui_next.Prelude.{
  ℕ, ◌-◌, ◌*◌, ◌/◌, Bool, true, false, not, ◌&&◌, ◌||◌, comparable_bool, comparable_nat, ◌==◌,
  if◌then◌else◌,
}

pub record Addr : Type 0 where
  pub is6 : Bool
  pub value : ℕ

pub record Prefix : Type 0 where
  pub addr : Addr
  pub bits : ℕ

abbrev pub bit_len : Addr → ℕ
bit_len a = if a.is6 then 128 else 32

abbrev pub same_addr : Addr → Addr → Bool
same_addr a b = a.is6 == b.is6 && a.value == b.value

-- The number of the block of `bits` leading bits that an address lies in.
unfoldable pub block : ℕ → Addr → ℕ
block bits a = a.value / (2 ^ (bit_len a - bits))

-- Whether two addresses of one family have their first `bits` bits in common.
abbrev pub share : ℕ → Addr → Addr → Bool
share bits a b = a.is6 == b.is6 && block bits a == block bits b

-- `Prefix.Contains`
abbrev pub contains : Prefix → Addr → Bool
contains p a = share p.bits p.addr a

-- `Prefix.Overlaps`
abbrev pub overlaps : Prefix → Prefix → Bool
overlaps p q = share (min p.bits q.bits) p.addr q.addr

-- `Prefix.Masked`
abbrev pub masked : Prefix → Prefix
masked p = record p {
  addr = record p.addr { value = block p.bits p.addr * (2 ^ (bit_len p.addr - p.bits)) };
}

abbrev pub is_masked : Prefix → Bool
is_masked p = same_addr (masked p).addr p.addr

-- `Bits() == Addr().BitLen()`: a single address.
abbrev pub is_host : Prefix → Bool
is_host p = p.bits == bit_len p.addr

-- `IsLinkLocalUnicast` of an IPv6 address: fe80::/10.
abbrev pub is_link_local6 : Addr → Bool
is_link_local6 a = block 10 a == 1018
