-- ===== src/Connection/Answers.antt =====
-- How the calls of src/client/connection.cc end.
use sqpkv.Prelude.{ℕ, ◌≡◌, refl, none, List}
use sqpkv.Sockets.{Sockets}
use sqpkv.Packet.{packet_at}
use sqpkv.Packet.Command.{build_get, build_put, build_delete, build_get_all, build_key}
use sqpkv.Connection.{get, put, delete, get_all}

module _ (S : Sockets) (fuel : ℕ) (w : Sockets.World S) (sockfd : ℕ) where
  -- Every call faults, whatever the sockets do: the constructor of its packet writes through the null
  -- pointer that is the default of `buf`.
  pub calls-fault :
      (key value : List ℕ) (keys : List (List ℕ))
      → (get S fuel w sockfd key value ≡ none)
        × (put S fuel w sockfd key value ≡ none)
        × (delete S fuel w sockfd key ≡ none)
        × (get_all S fuel w sockfd key keys ≡ none)
  unfolding get put delete get_all build_get build_put build_delete build_get_all build_key
      packet_at
  calls-fault key value keys = (refl, refl, refl, refl)
