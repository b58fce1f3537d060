-- ===== src/Network/VirtualIps/Order.antt =====
-- The order in which incVirtualIP goes through the addresses.
use docker_sim.Prelude.{
  ℕ, suc, ◌+◌, ◌*◌, ◌≤◌, ◌≡◌, refl, ◌∙◌, ◌⊎◌, ◌↔◌, inl, inr, true, false, none, some, word, lt_int,
  if-true, if-false, Bool-cases, arith, ltb, lt→ltb, ok,
}
use docker_sim.Network.VirtualIps.{
  VirtualIps, Address, ◌==ip◌, inc_virtual_ip, equal_ips, number_length, digits, printed_length,
  string_to_virtual_ip,
}

-- Each number is at most 256.
pub record Octets (a : VirtualIps) : Type 0 where
  pub first : a.first ≤ 256
  pub second : a.second ≤ 256
  pub third : a.third ≤ 256
  pub fourth : a.fourth ≤ 256

octet_length : (n : ℕ) → n ≤ 256 → number_length n ≤ 3
unfolding number_length digits
octet_length n h = ground arith

-- The address is printed within the buffer.
abbrev pub IsScanned : VirtualIps → Type 0
IsScanned a = ltb (printed_length a) 16 ≡ true

pub Octets-IsScanned : (a : VirtualIps) → Octets a → IsScanned a
unfolding printed_length
Octets-IsScanned a o =
    lt→ltb
      (number_length a.first
        + number_length a.second
        + number_length a.third
        + number_length a.fourth
        + 3)
      16
      (omega (
        arith,
        octet_length a.first o.first,
        octet_length a.second o.second,
        octet_length a.third o.third,
        octet_length a.fourth o.fourth,
      ))

pub string_to_virtual_ip-scanned :
    (a : VirtualIps) → IsScanned a → string_to_virtual_ip (some a) ≡ ok a
unfolding string_to_virtual_ip
string_to_virtual_ip-scanned a h = if-true _ _ h

unfoldable pub rank : VirtualIps → ℕ
rank a = 16974593 * a.first + 66049 * a.second + 257 * a.third + a.fourth

-- What the increment gives: the next address, or no address and the state as it was.
abbrev pub Next : VirtualIps → Type 0
Next a =
    ((b : VirtualIps) × (inc_virtual_ip a ≡ (some b, b)) × (rank b ≡ suc (rank a)) × Octets b)
    ⊎ ((inc_virtual_ip a ≡ (none, a)) × (rank a ≡ 4362470400))

below_end : (n : ℕ) → n ≤ 256 → lt_int n 256 ≡ true → (word (n + 1) ≡ n + 1) × (n + 1 ≤ 256)
unfolding lt_int word
below_end n h k = ground arith

at_end : (n : ℕ) → n ≤ 256 → lt_int n 256 ≡ false → n ≡ 256
unfolding lt_int
at_end n h k = ground arith

-- The upper two numbers, when the lower two are at their end.
carried :
    (a : VirtualIps) → Octets a → lt_int a.fourth 256 ≡ false → lt_int a.third 256 ≡ false → Next a
unfolding inc_virtual_ip rank
carried a o h h3 =
    let e4 = at_end a.fourth o.fourth h in
    let e3 = at_end a.third o.third h3 in
    elim (Bool-cases (lt_int a.second 256)) [
      | inl h2 ↦
          let k = below_end a.second o.second h2 in
          inl (
            record a { second = word (a.second + 1); third = 0; fourth = 0 },
            if-false _ _ h ∙ if-false _ _ h3 ∙ if-true _ _ h2,
            omega (arith, e4, e3, k.0),
            record {
              first = o.first;
              second = omega (arith, k.0, k.1);
              third = omega arith;
              fourth = omega arith;
            },
          )
      | inr h2 ↦
          let e2 = at_end a.second o.second h2 in
          elim (Bool-cases (lt_int a.first 256)) [
            | inl h1 ↦
                let k = below_end a.first o.first h1 in
                inl (
                  record { first = word (a.first + 1); second = 0; third = 0; fourth = 0 },
                  if-false _ _ h ∙ if-false _ _ h3 ∙ if-false _ _ h2 ∙ if-true _ _ h1,
                  omega (arith, e4, e3, e2, k.0),
                  record {
                    first = omega (arith, k.0, k.1);
                    second = omega arith;
                    third = omega arith;
                    fourth = omega arith;
                  },
                )
            | inr h1 ↦ inr (
              if-false _ _ h ∙ if-false _ _ h3 ∙ if-false _ _ h2 ∙ if-false _ _ h1,
              omega (arith, e4, e3, e2, at_end a.first o.first h1),
            )
          ]
    ]

-- From an address with numbers up to 256, the next address has the next rank and numbers up to
-- 256; only the address of the last rank, which is 257 ^ 4 - 1, has none, and it stays.
pub inc_virtual_ip-Next : (a : VirtualIps) → Octets a → Next a
unfolding inc_virtual_ip rank
inc_virtual_ip-Next a o = elim (Bool-cases (lt_int a.fourth 256)) [
  | inl h ↦
      let k = below_end a.fourth o.fourth h in
      inl (
        record a { fourth = word (a.fourth + 1) },
        if-true _ _ h,
        omega (arith, k.0),
        record {
          first = o.first;
          second = o.second;
          third = o.third;
          fourth = omega (arith, k.0, k.1);
        },
      )
  | inr h ↦ elim (Bool-cases (lt_int a.third 256)) [
    | inl h3 ↦
        let k = below_end a.third o.third h3 in
        inl (
          record a { third = word (a.third + 1); fourth = 0 },
          if-false _ _ h ∙ if-true _ _ h3,
          omega (arith, k.0, at_end a.fourth o.fourth h),
          record {
            first = o.first;
            second = o.second;
            third = omega (arith, k.0, k.1);
            fourth = omega arith;
          },
        )
    | inr h3 ↦ carried a o h h3
  ]
]

-- Two printed addresses are equal exactly if their strings are.
pub equal_ips_iff : (a b : VirtualIps) → (equal_ips a b ≡ true) ↔ (a ≡ b)
unfolding equal_ips
equal_ips_iff a b = ground (arith)

pub equal_ips_refl : (a : VirtualIps) → equal_ips a a ≡ true
equal_ips_refl a = (equal_ips_iff a a).1 refl

pub ==ip_iff : (a b : Address) → ((a ==ip b) ≡ true) ↔ (a ≡ b)
unfolding ◌==ip◌
==ip_iff none none = ground arith
==ip_iff none (some b) = ground arith
==ip_iff (some a) none = ground arith
==ip_iff (some a) (some b) = ground (arith, equal_ips_iff a b)

pub ==ip_refl : (a : Address) → (a ==ip a) ≡ true
==ip_refl a = (==ip_iff a a).1 refl
