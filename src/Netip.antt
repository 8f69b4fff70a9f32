-- ===== src/Netip.antt =====
-- The part of Go's net/netip that the program uses: addresses of both families, prefixes, and their
-- order. The text forms are parameters where they are read or written.

use songbird_prototypes.Prelude.{
  ℕ, ◌+◌, ◌-◌, ◌/◌, ◌%◌, ◌^◌, min, String, Bool, ◌&&◌, ◌||◌, not, Option, [], ◌∷◌, ◌==◌, ltb, eqb,
  if◌then◌else◌, text_lt, concat, decimal,
}

pub record Addr : Type 0 where
  pub is6 : Bool
  pub value : ℕ
  pub zone : String

pub record Prefix : Type 0 where
  pub addr : Addr
  pub bits : ℕ

-- `ParseAddr`, `ParsePrefix` and `String`.
pub record Texts : Type 0 where
  pub parse_addr : String → Option Addr
  pub parse_prefix : String → Option Prefix
  pub text : Addr → String

unfoldable pub bit_len : Addr → ℕ
bit_len a = if a.is6 then 128 else 32

-- The size of the part that a prefix leaves open.
abbrev pub host_count : Prefix → ℕ
host_count p = 2 ^ (bit_len p.addr - p.bits)

unfoldable pub masked : Prefix → Prefix
masked p =
    let a = p.addr in
    record p { addr = record a { value = p.addr.value - p.addr.value % host_count p; zone = "" } }

-- `Contains`: an address with a zone is in no prefix.
unfoldable pub includes : Prefix → Addr → Bool
includes p a =
    (if a.is6 then p.addr.is6 else not p.addr.is6)
    && (a.zone == "")
    && eqb (a.value / host_count p) (p.addr.value / host_count p)

-- `Less`: the family, the number, the zone.
unfoldable pub less : Addr → Addr → Bool
less a b =
    ltb (bit_len a) (bit_len b)
    || (eqb (bit_len a) (bit_len b)
        && (ltb a.value b.value || (eqb a.value b.value && a.is6 && text_lt a.zone b.zone)))

-- `Is4`, on an address that was parsed.
unfoldable pub is4 : Addr → Bool
is4 a = not a.is6

abbrev pub same_addr : Addr → Addr → Bool
same_addr a b = eqb (bit_len a) (bit_len b) && eqb a.value b.value && (a.zone == b.zone)

-- `==` of two prefixes.
unfoldable pub same_prefix : Prefix → Prefix → Bool
same_prefix p q = same_addr p.addr q.addr && eqb p.bits q.bits

-- `Overlaps`: the shorter of the two lengths decides.
unfoldable pub prefix_overlaps : Prefix → Prefix → Bool
prefix_overlaps p q =
    let open_bits = 2 ^ (bit_len p.addr - min p.bits q.bits) in
    eqb (bit_len p.addr) (bit_len q.addr)
    && eqb (p.addr.value / open_bits) (q.addr.value / open_bits)

-- `Next`, below the last address.
abbrev pub next : Addr → Addr
next a = record a { value = a.value + 1 }

-- `Prefix.String`.
abbrev pub prefix_text : Texts → Prefix → String
prefix_text netip p = concat (netip.text p.addr ∷ "/" ∷ decimal p.bits ∷ [])
