-- ===== src/ClientMain/Prompt.antt =====
-- The loop of src/client/main.cc at the end of its input.
use sqpkv.Prelude.{ℕ, zero, suc, ◌≡◌, refl, ◌∙◌, some, List, [], ◌++◌, append-nil, append_assoc}
use sqpkv.Sockets.{Sockets}
use sqpkv.ClientMain.{prompting, run_command, command_of, main_loop, show, text_unsupported}

-- `n` times the answer to a line that is no command
unfoldable pub complaints : ℕ → List ℕ
complaints zero = []
complaints (suc n) = show text_unsupported ++ complaints n

module _ (S : Sockets) (reads sockfd : ℕ) where
  -- At the end of an input whose lines all end with a newline, the program does not end and does not
  -- fault: whatever number of rounds is given to its loop, each of them has printed `Unsupported syntax`
  -- and the prompt, has touched no socket, and the loop goes on.
  pub main_loop_at_end :
      (fuel : ℕ) (out : List ℕ) (w : Sockets.World S)
      → main_loop S reads sockfd fuel [] out w ≡ some (prompting (out ++ complaints fuel), w)
  unfolding main_loop run_command command_of complaints
  main_loop_at_end zero out w = rw append-nil refl
  main_loop_at_end (suc fuel) out w =
      main_loop_at_end fuel (out ++ show text_unsupported) w
      ∙ rw (append_assoc out (show text_unsupported) (complaints fuel)) refl
