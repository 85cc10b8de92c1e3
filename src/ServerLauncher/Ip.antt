-- ===== src/ServerLauncher/Ip.antt =====
-- Which address GetInfinibandIp of src/server/server_launcher.cc finds.
use sqpkv.Prelude.{
  ℕ, ◌≡◌, inl, inr, refl, Bool, true, false, ◌&&◌, Option, none, some, List, [], ◌∷◌, Bool-cases,
  Option-cases,
}
use sqpkv.ServerLauncher.Addresses.{Interface, is_ib0, find_ip, get_infiniband_ip}

-- An IPv4 address of an interface named ib0...
abbrev is_infiniband : Interface → Bool
is_infiniband ifa = ifa.has_address && (is_ib0 ifa.name && ifa.is_inet)

-- The interfaces of that kind
infinibands : List Interface → List Interface
infinibands [] = []
infinibands (ifa ∷ interfaces) = elim (is_infiniband ifa) [
  | true ↦ ifa ∷ infinibands interfaces
  | false ↦ infinibands interfaces
]

-- The host of the last of them, if all have one
last_host : List Interface → Option (List ℕ) → Option (List ℕ)
last_host [] host = host
last_host (ifa ∷ interfaces) host = elim ifa.numeric_host [
  | none ↦ none
  | some found ↦ last_host interfaces (some found)
]

find_ip-last_host :
    (interfaces : List Interface) (host : Option (List ℕ))
    → find_ip interfaces host ≡ last_host (infinibands interfaces) host
unfolding find_ip infinibands last_host
find_ip-last_host [] host = refl
find_ip-last_host (ifa ∷ interfaces) host = elim (Bool-cases (is_infiniband ifa)) [
  | inr other ↦ rw (find_ip, infinibands, other) (find_ip-last_host interfaces host)
  | inl infiniband ↦ elim (Option-cases ifa.numeric_host) [
    | inl unnamed ↦ rw (find_ip, infinibands, infiniband, last_host, unnamed) refl
    | inr (found, named) ↦
        rw (find_ip, infinibands, infiniband, last_host, named)
          (find_ip-last_host interfaces (some found))
  ]
]

-- Where getifaddrs gives a list, GetInfinibandIp gives the numeric host of the last IPv4 address of an
-- interface whose name starts with ib0, and -1 where there is none or getnameinfo fails for one of them.
get_infiniband_ip-last_host :
    (interfaces : List Interface)
    → get_infiniband_ip (some interfaces) ≡ last_host (infinibands interfaces) none
unfolding get_infiniband_ip
get_infiniband_ip-last_host interfaces = find_ip-last_host interfaces none
