-- ===== src/NetIp/Laws.antt =====
-- Which prefixes of `net/netip` overlap.
use s_ui_next.NetIp.{Prefix, overlaps}
use s_ui_next.Prelude.{◌≡◌, arith, comparable_bool, comparable_nat}

pub overlaps_comm : (p q : Prefix) → overlaps p q ≡ overlaps q p
overlaps_comm p q = ground arith
