-- ===== src/SimpleFin/Addresses.antt =====
-- Which addresses the SimpleFIN client connects to.
use billtracker_plugin.Base.{
  ℕ, ◌+◌, ◌-◌, ◌*◌, ◌/◌, ◌^◌, ◌<◌, ◌≡◌, refl, ap, sym, subst, ◌⊎◌, inl, inr, Bool, true, false,
  ◌&&◌, ◌||◌, List, [], ◌∷◌, ◌++◌, Bytes, All, first, exists, cut_prefix-append, ◌==◌, arith,
  Bool-cases, same, map, ◌∙◌,
}
use billtracker_plugin.Errors.{Result, ok, err, no_allowed_address}
use billtracker_plugin.SimpleFin.Dial.{
  mapped_prefix, is_disallowed_ip, may_dial, dial_chosen, safe_dial_context,
}

-- A block of IPv4 addresses, by an address in it and the number of bits that its addresses share.
pub record Block : Type 0 where
  pub address : ℕ
  pub bits : ℕ

abbrev pub ipv4 : ℕ → ℕ → ℕ → ℕ → ℕ
ipv4 a b c d = a * 2 ^ 24 + b * 2 ^ 16 + c * 2 ^ 8 + d

abbrev pub block : ℕ → ℕ → ℕ → ℕ → ℕ → Block
block a b c d bits = record { address = ipv4 a b c d; bits = bits }

abbrev pub is_in : ℕ → Block → Bool
is_in n r = n / 2 ^ (32 - r.bits) == r.address / 2 ^ (32 - r.bits)

-- Loopback, the private blocks, link-local, multicast, and the unspecified address.
abbrev pub reserved : List Block
reserved =
    block 127 0 0 0 8
    ∷ block 10 0 0 0 8
    ∷ block 172 16 0 0 12
    ∷ block 192 168 0 0 16
    ∷ block 169 254 0 0 16
    ∷ block 224 0 0 0 4
    ∷ block 0 0 0 0 32
    ∷ []

module _ (a b c d : ℕ) (ha : a < 256) (hb : b < 256) (hc : c < 256) (hd : d < 256) where
  in_8 : (k : ℕ) → k < 256 → is_in (ipv4 a b c d) (block k 0 0 0 8) ≡ (a == k)
  in_8 k hk = ground arith

  in_16 :
      (k l : ℕ) → k < 256 → l < 256 → is_in (ipv4 a b c d) (block k l 0 0 16) ≡ (a == k && b == l)
  in_16 k l hk hl = ground arith

  in_172 : is_in (ipv4 a b c d) (block 172 16 0 0 12) ≡ (a == 172 && b / 16 == 1)
  in_172 = ground arith

  in_224 : is_in (ipv4 a b c d) (block 224 0 0 0 4) ≡ (a / 16 == 14)
  in_224 = ground arith

  in_0 : is_in (ipv4 a b c d) (block 0 0 0 0 32) ≡ same (a ∷ b ∷ c ∷ d ∷ []) (0 ∷ 0 ∷ 0 ∷ 0 ∷ [])
  unfolding same
  in_0 = ground arith

  -- The tests of the six methods, in their order, against the blocks in theirs.
  in_reserved : exists (is_in (ipv4 a b c d)) reserved ≡ (
      a == 127
      || (a == 10 || (a == 172 && b / 16 == 1) || (a == 192 && b == 168))
      || (a == 169 && b == 254)
      || (a == 224 && b == 0 && c == 0)
      || a / 16 == 14
      || same (a ∷ b ∷ c ∷ d ∷ []) (0 ∷ 0 ∷ 0 ∷ 0 ∷ []))
  in_reserved =
      rw
        (
          in_8 127 (omega arith),
          in_8 10 (omega arith),
          in_172,
          in_16 192 168 (omega arith) (omega arith),
          in_16 169 254 (omega arith) (omega arith),
          in_224,
          in_0,
        )
        (ground arith)

  -- An IPv4 address, plain or written as an IPv6 one, is refused just where it lies in one of the
  -- reserved blocks: 127/8, 10/8, 172.16/12, 192.168/16, 169.254/16, 224/4 and 0.0.0.0.
  pub is_disallowed_ip_iff_reserved :
      (is_disallowed_ip (a ∷ b ∷ c ∷ d ∷ []) ≡ exists (is_in (ipv4 a b c d)) reserved)
      × (is_disallowed_ip (mapped_prefix ++ a ∷ b ∷ c ∷ d ∷ [])
          ≡ exists (is_in (ipv4 a b c d)) reserved)
  unfolding is_disallowed_ip
  is_disallowed_ip_iff_reserved =
      (sym in_reserved, rw (cut_prefix-append mapped_prefix (a ∷ b ∷ c ∷ d ∷ [])) (sym in_reserved))

-- An address that a name server answers with: an IPv4 address, one written as an IPv6 address, or
-- any other bytes.
pub data Address : Type 0 where
  v4 mapped : ℕ → ℕ → ℕ → ℕ → Address
  other : Bytes → Address

abbrev pub bytes_of : Address → Bytes
bytes_of (v4 a b c d) = a ∷ b ∷ c ∷ d ∷ []
bytes_of (mapped a b c d) = mapped_prefix ++ a ∷ b ∷ c ∷ d ∷ []
bytes_of (other ip) = ip

abbrev pub HasBytes : Address → Type 0
HasBytes (v4 a b c d) = (a < 256) × (b < 256) × (c < 256) × (d < 256)
HasBytes (mapped a b c d) = (a < 256) × (b < 256) × (c < 256) × (d < 256)
HasBytes (other ip) = Unit

-- An IPv4 address is off limits in a reserved block, any other where it is disallowed.
abbrev pub is_off_limits : Address → Bool
is_off_limits (v4 a b c d) = exists (is_in (ipv4 a b c d)) reserved
is_off_limits (mapped a b c d) = exists (is_in (ipv4 a b c d)) reserved
is_off_limits (other ip) = is_disallowed_ip ip

is_off_limits_lem : (x : Address) → HasBytes x → is_disallowed_ip (bytes_of x) ≡ is_off_limits x
is_off_limits_lem (v4 a b c d) (ha, hb, hc, hd) =
    (is_disallowed_ip_iff_reserved a b c d ha hb hc hd).0
is_off_limits_lem (mapped a b c d) (ha, hb, hc, hd) =
    (is_disallowed_ip_iff_reserved a b c d ha hb hc hd).1
is_off_limits_lem (other ip) h = refl

-- Refused: outside of the insecure test mode, and off limits.
abbrev pub Refused : Bool → Address → Type 0
Refused insecure x = (insecure ≡ false) × (is_off_limits x ≡ true)

-- How a list of resolved addresses is dealt with: the first that is not refused is dialed, and all
-- before it are; or all of them are, and that is the error.
abbrev pub Chooses : {C : Type 0} → Bool → (Bytes → Result C) → List Address → Result C → Type 0
Chooses {C} insecure dial xs r =
    ((x : Address) × (before : List Address) × (after : List Address) × (xs ≡ before ++ x ∷ after)
      × All (Refused insecure) before
      × ((insecure ≡ true) ⊎ (is_off_limits x ≡ false))
      × (r ≡ dial (bytes_of x)))
    ⊎ (All (Refused insecure) xs × (r ≡ err no_allowed_address))

passes_over :
    {A : Type 0} (p : A → Bool) (x : A) (xs : List A) → p x ≡ false → first p (x ∷ xs) ≡ first p xs
passes_over p x xs e = rw e

module _ (insecure : Bool) (x : Address) (h : HasBytes x) where
  may_dial-Refused : may_dial insecure (bytes_of x) ≡ false → Refused insecure x
  may_dial-Refused e = elim (Bool-cases insecure) [
    | inl on ↦ cc (rw on at e)
    | inr off ↦ elim (Bool-cases (is_disallowed_ip (bytes_of x))) [
      | inl bad ↦ (off, sym (is_off_limits_lem x h) ∙ bad)
      | inr good ↦ cc (rw (off, good) at e)
    ]
  ]

  may_dial_allowed :
      may_dial insecure (bytes_of x) ≡ true → (insecure ≡ true) ⊎ (is_off_limits x ≡ false)
  may_dial_allowed e = elim (Bool-cases insecure) [
    | inl on ↦ inl on
    | inr off ↦ elim (Bool-cases (is_disallowed_ip (bytes_of x))) [
      | inl bad ↦ cc (rw (off, bad) at e)
      | inr good ↦ inr (sym (is_off_limits_lem x h) ∙ good)
    ]
  ]

module _ {C : Type 0} (insecure : Bool) (look_up : Bytes → Result (List Bytes))
    (dial : Bytes → Bytes → Result C) where
  behind :
      (port : Bytes) (x : Address) (xs : List Address) (r : Result C)
      → Refused insecure x
      → Chooses insecure (λ ip. dial ip port) xs r
      → Chooses insecure (λ ip. dial ip port) (x ∷ xs) r
  behind port x xs r e (inl (y, before, after, split, passed, may, is)) =
      inl (y, x ∷ before, after, ap (λ l. x ∷ l) split, (e, passed), may, is)
  behind port x xs r e (inr (passed, is)) = inr ((e, passed), is)

  dial_chosen-first :
      (port : Bytes) (xs : List Address)
      → All HasBytes xs
      → Chooses insecure
          (λ ip. dial ip port)
          xs
          (dial_chosen insecure look_up dial port (first (may_dial insecure) (map bytes_of xs)))
  dial_chosen-first port [] h = inr (tt, refl)
  dial_chosen-first port (x ∷ xs) h = elim (Bool-cases (may_dial insecure (bytes_of x))) [
    | inl e ↦ rw e (inl (x, [], xs, refl, tt, may_dial_allowed insecure x h.0 e, refl))
    | inr e ↦
        subst
          (λ o.
            Chooses insecure (λ ip. dial ip port) (x ∷ xs)
              (dial_chosen insecure look_up dial port o))
          (sym (passes_over (may_dial insecure) (bytes_of x) (map bytes_of xs) e))
          (behind port x xs _ (may_dial-Refused insecure x h.0 e) (dial_chosen-first port xs h.1))
  ]

  -- For a host that resolves, the call comes to dialing the first of its addresses that is not
  -- refused, on the port that was asked for; where there is none, it fails with the error that says
  -- so. In the insecure test mode no address is refused; otherwise an IPv4 address is, plain or
  -- written as an IPv6 one, just where it lies in a reserved block, and another where it is
  -- disallowed.
  pub safe_dial_context-Chooses :
      (host port : Bytes) (xs : List Address)
      → All HasBytes xs
      → look_up host ≡ ok (map bytes_of xs)
      → Chooses insecure
          (λ ip. dial ip port)
          xs
          (safe_dial_context insecure look_up dial (ok (host, port)))
  unfolding safe_dial_context
  safe_dial_context-Chooses host port xs h found = rw found (dial_chosen-first port xs h)
