-- ===== src/ClientMain/Frames.antt =====
-- How wide ShowList of src/client/main.cc prints its rows.
use sqpkv.Prelude.{
  ℕ, zero, suc, ◌+◌, ◌-◌, ◌/◌, ◌≡◌, ◌≤◌, refl, List, [], ◌∷◌, ◌++◌, arith, length, length-append,
  replicate,
}
use Prim.Native.Nat.{min}
use sqpkv.ClientMain.{row, border}

length-replicate : (n c : ℕ) → length (replicate n c) ≡ n
length-replicate zero c = refl
length-replicate (suc n) c = omega (arith, length-replicate n c)

length-border : (left max_len right : ℕ) → length (border left max_len right) ≡ max_len + 2
unfolding border
length-border left max_len right =
    omega (
      arith,
      length-append (replicate max_len 0x2500) (right ∷ []),
      length-replicate max_len 0x2500,
    )

-- The row of an item that is at least two shorter than `max_len`: the width of the row, with the lesser of
-- the item's left padding and its length, is one more than the width of the lines between the rows. (So
-- they are as wide as each other only where this lesser one is 1.)
length-row :
    (max_len : ℕ) (item : List ℕ)
    → length item + 2 ≤ max_len
    → length (row max_len item) + min ((max_len - length item) / 2) (length item)
      ≡ length (border 0x251C max_len 0x2524) + 1
unfolding row
length-row max_len item h = omega (
  arith,
  length-border 0x251C max_len 0x2524,
  length-append {A = ℕ} (replicate (lpad - length item) b' ')
      (item ++ (replicate rpad b' ' ++ (b' ' ∷ 0x2502 ∷ []))),
  length-append item (replicate rpad b' ' ++ (b' ' ∷ 0x2502 ∷ [])),
  length-append {A = ℕ} (replicate rpad b' ') (b' ' ∷ 0x2502 ∷ []),
  length-replicate (lpad - length item) b' ',
  length-replicate rpad b' ',
)
  where
    lpad : ℕ
    lpad = (max_len - length item) / 2

    rpad : ℕ
    rpad = max_len - lpad - length item - 1
