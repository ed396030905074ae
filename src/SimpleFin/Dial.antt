-- ===== src/SimpleFin/Dial.antt =====
-- internal/simplefin/client.go: `isDisallowedIP` and `safeDialContext`. Name servers and connections
-- are parameters.
use billtracker_plugin.Base.{
  ℕ, ◌/◌, ◌%◌, Bool, not, ◌&&◌, ◌||◌, Option, none, some, List, [], ◌∷◌, ◌++◌, Bytes, same, length,
  first, cut_prefix, ◌==◌, if◌then◌else◌,
}
use billtracker_plugin.Errors.{Result, ok, err, no_allowed_address}

-- A byte of an address, which its length says is there.
abbrev pub byte : ℕ → Bytes → ℕ
byte n [] = 0
byte ℕ.zero (b ∷ bs) = b
byte (ℕ.suc n) (b ∷ bs) = byte n bs

abbrev zeros10 : Bytes
zeros10 = 0 ∷ 0 ∷ 0 ∷ 0 ∷ 0 ∷ 0 ∷ 0 ∷ 0 ∷ 0 ∷ 0 ∷ []

-- What stands before an IPv4 address that is written as an IPv6 one.
abbrev pub mapped_prefix : Bytes
mapped_prefix = zeros10 ++ 255 ∷ 255 ∷ []

-- `ip.To4()` of Go's net package.
abbrev pub to4 : Bytes → Option Bytes
to4 ip =
    if length ip == 4
    then some ip
    else if length ip == 16
    then cut_prefix ip mapped_prefix
    else none

abbrev by_version : (Bytes → Bool) → (Bytes → Bool) → Bytes → Option Bytes → Bool
by_version on4 on6 ip none = on6 ip
by_version on4 on6 ip (some ip4) = on4 ip4

-- The methods of `net.IP`; the masks of their bytes are written as quotients and remainders.
abbrev is_loopback : Bytes → Bool
is_loopback ip =
    by_version (λ q. byte 0 q == 127) (λ q. same q (zeros10 ++ 0 ∷ 0 ∷ 0 ∷ 0 ∷ 0 ∷ 1 ∷ [])) ip
      (to4 ip)

abbrev is_private : Bytes → Bool
is_private ip =
    by_version
      (λ q.
        byte 0 q == 10
        || (byte 0 q == 172 && byte 1 q / 16 == 1)
        || (byte 0 q == 192 && byte 1 q == 168))
      (λ q. length q == 16 && byte 0 q / 2 == 126) ip (to4 ip)

abbrev is_link_local_unicast : Bytes → Bool
is_link_local_unicast ip =
    by_version (λ q. byte 0 q == 169 && byte 1 q == 254)
      (λ q. length q == 16 && byte 0 q == 254 && byte 1 q / 64 == 2) ip (to4 ip)

abbrev is_link_local_multicast : Bytes → Bool
is_link_local_multicast ip =
    by_version (λ q. byte 0 q == 224 && byte 1 q == 0 && byte 2 q == 0)
      (λ q. length q == 16 && byte 0 q == 255 && byte 1 q % 16 == 2) ip (to4 ip)

abbrev is_multicast : Bytes → Bool
is_multicast ip =
    by_version (λ q. byte 0 q / 16 == 14) (λ q. length q == 16 && byte 0 q == 255) ip (to4 ip)

abbrev is_unspecified : Bytes → Bool
is_unspecified ip =
    by_version (λ q. same q (0 ∷ 0 ∷ 0 ∷ 0 ∷ []))
      (λ q. same q (zeros10 ++ 0 ∷ 0 ∷ 0 ∷ 0 ∷ 0 ∷ 0 ∷ [])) ip (to4 ip)

-- `isDisallowedIP`.
unfoldable pub is_disallowed_ip : Bytes → Bool
is_disallowed_ip ip =
    is_loopback ip
    || is_private ip
    || is_link_local_unicast ip
    || is_link_local_multicast ip
    || is_multicast ip
    || is_unspecified ip

-- The test of the loop in `safeDialContext`; `insecure` is `InsecureTestMode`.
abbrev pub may_dial : Bool → Bytes → Bool
may_dial insecure ip = insecure || not (is_disallowed_ip ip)

-- `split` is what `net.SplitHostPort` makes of the address, `dial` connects to an address.
module _ {C : Type 0} (insecure : Bool) (look_up : Bytes → Result (List Bytes))
    (dial : Bytes → Bytes → Result C) where
  abbrev pub dial_chosen : Bytes → Option Bytes → Result C
  dial_chosen port none = err no_allowed_address
  dial_chosen port (some ip) = dial ip port

  abbrev resolved : Bytes → Result (List Bytes) → Result C
  resolved port (err e) = err e
  resolved port (ok ips) = dial_chosen port (first (may_dial insecure) ips)

  -- `safeDialContext`.
  unfoldable pub safe_dial_context : Result (Bytes × Bytes) → Result C
  safe_dial_context (err e) = err e
  safe_dial_context (ok (host, port)) = resolved port (look_up host)
