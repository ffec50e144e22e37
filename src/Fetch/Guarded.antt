-- ===== src/Fetch/Guarded.antt =====
-- What the guards of packages/common/src/ssrf-fetcher.ts keep out.
use groceryclaw.Fetch.{
  is_public_ipv4, ipv4_to_int, is_private_ipv4, in_range, blocked_v4, is_public_ipv6, Words,
}
use groceryclaw.Base.{
  ℕ, ◌+◌, ◌*◌, ◌/◌, ◌%◌, ◌≤◌, ◌<◌, ◌⊎◌, true, false, ◌&&◌, List, [], ◌∷◌, Option, some, ◌≡◌, inl,
  inr, Bool-cases, arith, leb, ◌==◌, ap, any,
}

abbrev pub quad : (a b c d : ℕ) → List (Option ℕ)
quad a b c d = some a ∷ some b ∷ some c ∷ some d ∷ []

abbrev pub address : (a b c d : ℕ) → ℕ
address a b c d = ((a * 256 + b) * 256 + c) * 256 + d

private-cases :
    (a b : ℕ)
    → is_private_ipv4 a b ≡ true
    → (a ≡ 10)
      ⊎ ((a ≡ 127)
          ⊎ (((a ≡ 169) × (b ≡ 254))
              ⊎ (((a ≡ 192) × (b ≡ 168)) ⊎ ((a ≡ 172) × ((16 ≤ b) × (b ≤ 31))))))
unfolding is_private_ipv4
private-cases a b h = ground (arith, h)

blocked : (n base size : ℕ) → base ≤ n → n < base + size → in_range n (base, size) ≡ true
blocked n base size h k = ground (arith, h, k)

module _ (a b c d : ℕ) (ha : a ≤ 255) (hb : b ≤ 255) (hc : c ≤ 255) (hd : d ≤ 255) where
  ipv4_to_int-quad : ipv4_to_int 0 (quad a b c d) ≡ some (address a b c d)
  unfolding ipv4_to_int
  ipv4_to_int-quad = ground (arith, ha, hb, hc, hd)

  private-blocked : is_private_ipv4 a b ≡ true → any (in_range (address a b c d)) blocked_v4 ≡ true
  private-blocked h =
      let n = address a b c d in
      elim (private-cases a b h) [
        | inl e ↦
            let r = blocked n 167772160 16777216 (omega arith) (omega arith) in ground (arith, r)
        | inr (inl e) ↦
            let r = blocked n 2130706432 16777216 (omega arith) (omega arith) in ground (arith, r)
        | inr (inr (inl e)) ↦
            let r = blocked n 2851995648 65536 (omega arith) (omega arith) in ground (arith, r)
        | inr (inr (inr (inl e))) ↦
            let r = blocked n 3232235520 65536 (omega arith) (omega arith) in ground (arith, r)
        | inr (inr (inr (inr e))) ↦
            let r = blocked n 2886729728 1048576 (omega arith) (omega arith) in ground (arith, r)
      ]

  private-is_public_ipv4 : is_private_ipv4 a b ≡ true → is_public_ipv4 (quad a b c d) ≡ false
  unfolding is_public_ipv4
  private-is_public_ipv4 h =
      rw (ipv4_to_int-quad, is_public_ipv4) (ground (arith, private-blocked h))

  -- The IPv4 address in the last two words of an IPv6 address, `::ffff:a.b.c.d` or `::a.b.c.d`.
  abbrev pub embedded : (w5 : ℕ) → Words
  embedded w5 = record {
    w0 = 0;
    w1 = 0;
    w2 = 0;
    w3 = 0;
    w4 = 0;
    w5 = w5;
    w6 = a * 256 + b;
    w7 = c * 256 + d;
  }

  zero-is_public_ipv4 : a * 256 + b ≡ 0 → c * 256 + d ≤ 1 → is_public_ipv4 (quad a b c d) ≡ false
  unfolding is_public_ipv4
  zero-is_public_ipv4 h k =
      let r = blocked (address a b c d) 0 16777216 (omega arith) (omega arith) in
      rw (ipv4_to_int-quad, is_public_ipv4) (ground (arith, r))

  quad-words :
      some ((a * 256 + b) / 256)
        ∷ some ((a * 256 + b) % 256)
        ∷ some ((c * 256 + d) / 256)
        ∷ some ((c * 256 + d) % 256)
        ∷ []
      ≡ quad a b c d
  quad-words =
      let p : (a * 256 + b) / 256 ≡ a = omega arith in
      let q : (a * 256 + b) % 256 ≡ b = omega arith in
      let r : (c * 256 + d) / 256 ≡ c = omega arith in
      let s : (c * 256 + d) % 256 ≡ d = omega arith in cc (p, q, r, s)

  embedded-is_public :
      (w5 : ℕ)
      → (w5 ≡ 0) ⊎ (w5 ≡ 65535)
      → is_public_ipv6 (embedded w5) ≡ is_public_ipv4 (quad a b c d)
  unfolding is_public_ipv6
  embedded-is_public w5 h =
      let same = ap is_public_ipv4 quad-words in
      elim (Bool-cases (w5 == 0 && (a * 256 + b == 0 && leb (c * 256 + d) 1))) [
        | inl zero' ↦
            let none' = zero-is_public_ipv4 (ground (arith, zero')) (ground (arith, zero')) in
            ground (arith, zero', none')
        | inr other ↦ ground (arith, other, same, h)
      ]

  -- The guards agree on IPv4 addresses, of four numbers up to 255: an address that the guard of attachments calls private is not public
  -- for the guard of public URLs, and to that guard an IPv6 address that embeds an IPv4 address, mapped or
  -- compatible, is public exactly if the IPv4 address is.
  pub guards_agree :
      (w5 : ℕ)
      → (w5 ≡ 0) ⊎ (w5 ≡ 65535)
      → ((is_private_ipv4 a b ≡ false) ⊎ (is_public_ipv4 (quad a b c d) ≡ false))
        × (is_public_ipv6 (embedded w5) ≡ is_public_ipv4 (quad a b c d))
  guards_agree w5 h = (
    elim (Bool-cases (is_private_ipv4 a b)) [
      | inl private ↦ inr (private-is_public_ipv4 private)
      | inr other ↦ inl other
    ],
    embedded-is_public w5 h,
  )
