-- ===== src/FetchGuard/Address.antt =====
-- `BLOCKED_NETS` and `_is_public` of scripts/files/web_fetch_guard.py. An address is its number, as `int(ip)` has it;
-- `is_global`, which differs between Python releases, is an argument.
use local_gpu_cluster.Prelude.{
  ℕ, ◌+◌, ◌*◌, ◌^◌, ◌-◌, Bool, true, false, not, ◌&&◌, Option, none, some, List, [], ◌∷◌, leb, ltb,
  any, if◌then◌else◌,
}

pub data Ip : Type 0 where
  v4 v6 : ℕ → Ip

-- A network of one version: its first address, and how many bits of an address are free.
pub record Net : Type 0 where
  pub base : ℕ
  pub free_bits : ℕ

abbrev pub quad : ℕ → ℕ → ℕ → ℕ → ℕ
quad a b c d = a * 16777216 + b * 65536 + c * 256 + d

abbrev net4 : ℕ → ℕ → Net
net4 base prefix = record { base = base; free_bits = 32 - prefix }

-- A network of version 6 whose first two groups of 16 bits are these.
abbrev net6 : ℕ → ℕ → ℕ → Net
net6 high low prefix = record { base = high * 2 ^ 112 + low * 2 ^ 96; free_bits = 128 - prefix }

abbrev pub blocked_v4 : List Net
blocked_v4 =
    net4 (quad 0 0 0 0) 8
    ∷ net4 (quad 10 0 0 0) 8
    ∷ net4 (quad 100 64 0 0) 10
    ∷ net4 (quad 127 0 0 0) 8
    ∷ net4 (quad 169 254 0 0) 16
    ∷ net4 (quad 172 16 0 0) 12
    ∷ net4 (quad 192 0 0 0) 24
    ∷ net4 (quad 192 0 2 0) 24
    ∷ net4 (quad 192 88 99 0) 24
    ∷ net4 (quad 192 168 0 0) 16
    ∷ net4 (quad 198 18 0 0) 15
    ∷ net4 (quad 198 51 100 0) 24
    ∷ net4 (quad 203 0 113 0) 24
    ∷ net4 (quad 224 0 0 0) 4
    ∷ net4 (quad 240 0 0 0) 4
    ∷ net4 (quad 255 255 255 255) 32
    ∷ []

-- The first address of ::ffff:0:0/96.
abbrev pub mapped_base : ℕ
mapped_base = 65535 * 2 ^ 32

abbrev pub blocked_v6 : List Net
blocked_v6 =
    net6 0 0 128
    ∷ record { base = 1; free_bits = 0 }
    ∷ record { base = mapped_base; free_bits = 32 }
    ∷ net6 100 65435 96
    ∷ record { base = 100 * 2 ^ 112 + 65435 * 2 ^ 96 + 2 ^ 80; free_bits = 80 }
    ∷ net6 256 0 64
    ∷ net6 8193 0 32
    ∷ net6 8193 3512 32
    ∷ net6 8194 0 16
    ∷ net6 64512 0 7
    ∷ net6 65152 0 10
    ∷ net6 65216 0 10
    ∷ net6 65280 0 8
    ∷ []

-- ip in net
abbrev pub inside : ℕ → Net → Bool
inside n net = leb net.base n && ltb n (net.base + 2 ^ net.free_bits)

abbrev pub nets_of : Ip → List Net
nets_of (v4 n) = blocked_v4
nets_of (v6 n) = blocked_v6

abbrev pub number : Ip → ℕ
number (v4 n) = n
number (v6 n) = n

-- any(ip in net for net in BLOCKED_NETS if net.version == ip.version)
unfoldable pub is_blocked : Ip → Bool
is_blocked ip = any (inside (number ip)) (nets_of ip)

-- ip.ipv4_mapped
abbrev pub ipv4_mapped : Ip → Option ℕ
ipv4_mapped (v4 n) = none
ipv4_mapped (v6 n) =
    if leb mapped_base n && ltb n (mapped_base + 2 ^ 32) then some (n - mapped_base) else none

module _ (is_global : Ip → Bool) where
  -- `_is_public` of a version 4 address, which is not mapped.
  abbrev pub public_v4 : ℕ → Bool
  public_v4 n = not (is_blocked (v4 n)) && is_global (v4 n)

  abbrev pub mapped_ok : Option ℕ → Bool
  mapped_ok none = true
  mapped_ok (some n) = public_v4 n

  unfoldable pub is_public : Ip → Bool
  is_public ip = if is_blocked ip then false else mapped_ok (ipv4_mapped ip) && is_global ip
