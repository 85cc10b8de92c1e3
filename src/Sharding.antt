-- ===== src/Sharding.antt =====
-- src/server/sharding_policy.h and sharding_policy.cc: the shard of a key, by the number behind its
-- first '_'. `none` is a fault: a read past the key, an exception of std::stoul that nothing catches,
-- or a division by zero.
pub mod Digits
pub mod Shard
use sqpkv.Prelude.{
  ℕ, zero, suc, ◌+◌, ◌-◌, ◌*◌, ◌^◌, ◌%◌, Bool, true, false, ◌&&◌, ◌||◌, Option, none, some, List,
  [], ◌∷◌, length, ◌==◌, ltb, leb, if◌then◌else◌, ◌>>=◌,
}
use sqpkv.Prelude.Int.{ℤ, to_int32, rem}

-- while (key[id_start++] != '_') {}: what is behind the first '_'
pub behind_underscore : List ℕ → Option (List ℕ)
behind_underscore [] = none
behind_underscore (c ∷ key) = if c == b'_' then some key else behind_underscore key

-- The C library's isspace and isdigit, in the "C" locale.
abbrev is_space : ℕ → Bool
is_space c = c == 32 || (leb 9 c && leb c 13)

abbrev pub is_digit : ℕ → Bool
is_digit c = leb b'0' c && leb c b'9'

unfoldable pub skip_spaces : List ℕ → List ℕ
skip_spaces [] = []
skip_spaces (c ∷ text) = if is_space c then skip_spaces text else c ∷ text

-- The value of the leading digits, after those that made `acc`.
unfoldable pub leading_digits : ℕ → List ℕ → ℕ
leading_digits acc [] = acc
leading_digits acc (c ∷ text) =
    if is_digit c then leading_digits (acc * 10 + (c - b'0')) text else acc

abbrev pub starts_with_digit : List ℕ → Bool
starts_with_digit [] = false
starts_with_digit (c ∷ _) = is_digit c

-- Whether std::stoul negates, and the text behind a sign.
abbrev pub sign_of : List ℕ → Bool × List ℕ
sign_of [] = (false, [])
sign_of (c ∷ text) =
    if c == b'-' then (true, text) else (if c == b'+' then (false, text) else (false, c ∷ text))

-- std::stoul on 64 bits: std::invalid_argument without digits, std::out_of_range past 2 ^ 64 - 1, and
-- a negated value wraps.
pub stoul : List ℕ → Option ℕ
unfolding skip_spaces leading_digits
stoul text =
    let (negated, digits) = sign_of (skip_spaces text) in
    let value = leading_digits 0 digits in
    if starts_with_digit digits && ltb value (2 ^ 64)
    then some (if negated then (2 ^ 64 - value) % 2 ^ 64 else value)
    else none

-- ExtractKey: the unsigned long is returned as an int.
pub extract_key : List ℕ → Option ℤ
unfolding behind_underscore stoul
extract_key key = do id_string ← behind_underscore key; id ← stoul id_string; some (to_int32 id)

-- RoundRobinShardingPolicy, of fewer than 2 ^ 31 nodes: num_nodes_ is an int, to which the number of
-- servers is converted.
pub record RoundRobinShardingPolicy : Type 0 where
  pub num_nodes : ℕ

-- RoundRobinShardingPolicy::GetShardId: id % num_nodes_
pub get_shard_id : RoundRobinShardingPolicy → List ℕ → Option ℤ
unfolding extract_key
get_shard_id policy key = do
  id ← extract_key key
  if policy.num_nodes == 0 then none else some (rem id policy.num_nodes)
