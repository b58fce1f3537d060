-- ===== src/Network/VirtualIps.antt =====
-- VirtualIPs (Management/NetworkManager/VirtualIPs.cc): an address as its four numbers, each the
-- pattern of an `int`. A string that holds an address is what it prints, and of the
-- printing its length is modelled, which may be too much for the buffer that scanning uses.
pub mod Order
use docker_sim.Prelude.{
  ℕ, ◌+◌, ◌^◌, ◌-◌, Bool, true, false, ◌&&◌, Option, none, some, ◌==◌, ltb, word, sub_word, lt_int,
  Result, ok, err, ◌>>=◌, not_initialised, buffer_overflow, if◌then◌else◌,
}

pub record VirtualIps : Type 0 where
  pub first : ℕ
  pub second : ℕ
  pub third : ℕ
  pub fourth : ℕ

-- The constructor: four times -1.
unfoldable pub new_virtual_ips : VirtualIps
new_virtual_ips = record {
  first = 2 ^ 32 - 1;
  second = 2 ^ 32 - 1;
  third = 2 ^ 32 - 1;
  fourth = 2 ^ 32 - 1;
}

-- A string that holds an address; `none` is the empty string.
abbrev pub Address : Type 0
Address = Option VirtualIps

-- `strcmp (a, b) == 0` for two printed addresses.
unfoldable pub equal_ips : VirtualIps → VirtualIps → Bool
equal_ips a b =
    (a.first == b.first)
    && ((a.second == b.second) && ((a.third == b.third) && (a.fourth == b.fourth)))

infix 50 ◌==ip◌
unfoldable pub ◌==ip◌ : Address → Address → Bool
some a ==ip some b = equal_ips a b
some a ==ip none = false
none ==ip some b = false
none ==ip none = true

-- The digits of a number below 2 ^ 32, and the characters of an int that is printed.
unfoldable pub digits : ℕ → ℕ
digits n =
    if ltb n 10
    then 1
    else if ltb n 100
    then 2
    else if ltb n 1000
    then 3
    else if ltb n 10000
    then 4
    else if ltb n 100000
    then 5
    else if ltb n 1000000
    then 6
    else if ltb n 10000000
    then 7
    else if ltb n 100000000
    then 8
    else if ltb n 1000000000
    then 9
    else 10

unfoldable pub number_length : ℕ → ℕ
number_length n = if ltb n (2 ^ 31) then digits n else digits (2 ^ 32 - n) + 1

-- The four numbers and the dots between them.
unfoldable pub printed_length : VirtualIps → ℕ
printed_length a =
    number_length a.first
    + number_length a.second
    + number_length a.third
    + number_length a.fourth
    + 3

-- `strcpy` into a buffer of 16 characters, the last for the end of the string. `sscanf` sets none of
-- the four numbers from the empty string.
unfoldable pub string_to_virtual_ip : Address → Result VirtualIps
string_to_virtual_ip none = err not_initialised
string_to_virtual_ip (some a) = if ltb (printed_length a) 16 then ok a else err buffer_overflow

unfoldable pub set_virtual_ip : Address → Result VirtualIps
set_virtual_ip new_vip = string_to_virtual_ip new_vip

unfoldable pub get_virtual_ip : VirtualIps → Address
get_virtual_ip a = some a

-- The address that is returned, `none` for the empty string, and the state.
unfoldable pub inc_virtual_ip : VirtualIps → Address × VirtualIps
inc_virtual_ip a =
    let in_fourth = record a { fourth = word (a.fourth + 1) } in
    let in_third = record a { third = word (a.third + 1); fourth = 0 } in
    let in_second = record a { second = word (a.second + 1); third = 0; fourth = 0 } in
    let in_first : VirtualIps = record {
      first = word (a.first + 1);
      second = 0;
      third = 0;
      fourth = 0;
    } in
    if lt_int a.fourth 256
    then (some in_fourth, in_fourth)
    else if lt_int a.third 256
    then (some in_third, in_third)
    else if lt_int a.second 256
    then (some in_second, in_second)
    else if lt_int a.first 256
    then (some in_first, in_first)
    else (none, a)

-- The differences to the numbers of another address, which may be negative.
unfoldable pub generate_hole : Address → VirtualIps → Result Address
generate_hole ip_basis a = string_to_virtual_ip ip_basis >>= (λ basis. ok (
    some (record {
      first = sub_word a.first basis.first;
      second = sub_word a.second basis.second;
      third = sub_word a.third basis.third;
      fourth = sub_word a.fourth basis.fourth;
    })))

unfoldable pub get_network : VirtualIps → VirtualIps
get_network a = record a { third = 0; fourth = 0 }
