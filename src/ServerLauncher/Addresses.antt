-- ===== src/ServerLauncher/Addresses.antt =====
-- GetInfinibandIp of src/server/server_launcher.cc, and the text of a char array.
use sqpkv.Prelude.{ℕ, Bool, true, false, ◌&&◌, Option, none, some, List, [], ◌∷◌, ◌==◌, ◌>>=◌}

-- One entry of the list of getifaddrs: its name, whether it has an address of the family AF_INET, and what
-- getnameinfo gives for it, `none` where it fails.
pub record Interface : Type 0 where
  pub name : List ℕ
  pub has_address : Bool
  pub is_inet : Bool
  pub numeric_host : Option (List ℕ)

-- strncmp(ifa->ifa_name, "ib0", 3) == 0
abbrev pub is_ib0 : List ℕ → Bool
is_ib0 (a ∷ b ∷ c ∷ _) = (a == b'i') && (b == b'b') && (c == b'0')
is_ib0 _ = false

-- The loop of GetInfinibandIp: the host so far, where one was found. The result is `none` for -1.
unfoldable pub find_ip : List Interface → Option (List ℕ) → Option (List ℕ)
find_ip [] host = host
find_ip (ifa ∷ interfaces) host = elim (ifa.has_address && (is_ib0 ifa.name && ifa.is_inet)) [
  | false ↦ find_ip interfaces host
  | true ↦ elim ifa.numeric_host [ none ↦ none | some found ↦ find_ip interfaces (some found) ]
]

-- GetInfinibandIp(host) on the list of getifaddrs, `none` where that fails.
unfoldable pub get_infiniband_ip : Option (List Interface) → Option (List ℕ)
unfolding find_ip
get_infiniband_ip none = none
get_infiniband_ip (some interfaces) = find_ip interfaces none

-- std::string(ip_address): the bytes up to the first zero byte; without one the buffer is read past.
unfoldable pub c_string : List ℕ → Option (List ℕ)
c_string [] = none
c_string (b ∷ buffer) = elim (b == 0) [
  | true ↦ some []
  | false ↦ do text ← c_string buffer; some (b ∷ text)
]
