-- ===== src/Tests/Client.antt =====
-- The theorems about src/client/main.cc at concrete inputs.
use sqpkv.Prelude.{ℕ, ◌≡◌, refl, some, List, [], ◌∷◌, ◌++◌}
use sqpkv.ClientMain.{split, last_token, main_loop, prompting}
use sqpkv.ClientMain.Split.{terminated, split-terminated}
use sqpkv.ClientMain.Prompt.{complaints, main_loop_at_end}
use sqpkv.Tests.Net.{toy_net}

abbrev get_k : List (List ℕ)
get_k = (b'g' ∷ b'e' ∷ b't' ∷ []) ∷ [] ∷ []

split-terminated_example :
    split (terminated b' ' get_k ++ (b'k' ∷ [])) b' ' ≡ get_k ++ last_token (b'k' ∷ [])
split-terminated_example =
    split-terminated b' ' get_k (b'k' ∷ []) ((refl, (refl, (refl, tt))), (tt, tt)) (refl, tt)

main_loop_at_end_example :
    main_loop toy_net 3 0 2 [] [] ([], []) ≡ some (prompting ([] ++ complaints 2), ([], []))
main_loop_at_end_example = main_loop_at_end toy_net 3 0 2 [] ([], [])
