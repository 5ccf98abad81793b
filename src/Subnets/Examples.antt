-- ===== src/Subnets/Examples.antt =====
-- Two small networks, on which the theorems about usable addresses are used.
use icmp_mon.Base.{◌≡◌, ◌↔◌, refl, [], ◌∷◌, some, arith, In}
use icmp_mon.Subnets.{Network, ipv4_at, usable, calculate_usable_ips, standard_hosts, hosts_from}
use icmp_mon.Subnets.Hosts.{Host, addresses, calculate_usable_ips_iff}

-- 10.0.0.0/29 and 10.0.0.0/31.
abbrev eight : Network
eight = record { v4 = some 167772160; mask_size = 29; bits = 32 }

abbrev two : Network
two = record { v4 = some 167772160; mask_size = 31; bits = 32 }

eight_hosts :
    calculate_usable_ips (some eight) (ipv4_at 167772161)
    ≡ usable (167772162 ∷ 167772163 ∷ 167772164 ∷ 167772165 ∷ 167772166 ∷ [])
unfolding calculate_usable_ips standard_hosts hosts_from
eight_hosts = refl

calculate_usable_ips_iff_example :
    In 167772163 (addresses (calculate_usable_ips (some eight) (ipv4_at 167772161)))
    ↔ Host 167772160 8 (ipv4_at 167772161) 167772163
calculate_usable_ips_iff_example =
    calculate_usable_ips_iff 167772160 eight (ipv4_at 167772161) 167772163
      (record { is_v4 = refl; bits_32 = refl; four_or_more = omega arith; fits = omega arith })
